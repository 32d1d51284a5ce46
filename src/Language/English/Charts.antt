-- ===== src/Language/English/Charts.antt =====
-- spa/src/i18n/en.js: the lines 116 to 163.
use esphome_gplug.Base.{[], ◌∷◌}
use esphome_gplug.Language.{Table, says, takes, lit, arg}

abbrev pub english_charts : Table
english_charts =
    says "tabLive" "Live"
    ∷ says "tabHist" "History"
    ∷ says "tabStream" "Data"
    ∷ says "tabDevice" "Device"
    ∷ says "screenLive" "Live"
    ∷ says "screenHist" "History"
    ∷ says "screenStream" "Data stream"
    ∷ says "screenSetup" "Device"
    ∷ says "wlan" "Wi-Fi"
    ∷ says "offline" "offline"
    ∷ says "activePower" "Active power 1.7.0 / 2.7.0"
    ∷ says "drawFromGrid" "Import from the grid"
    ∷ says "feedToGrid" "Export to the grid"
    ∷ says "ago60" "−60 min"
    ∷ says "now" "now"
    ∷ says "max" "max"
    ∷ says "importLbl" "Import 1.8.0"
    ∷ says "exportLbl" "Export 2.8.0"
    ∷ says "phases" "Phases · 21/41/61.7.0"
    ∷ says "rangeDay" "Day"
    ∷ says "rangeWeek" "Week"
    ∷ says "rangeMonth" "Month"
    ∷ says "rangeYear" "Year"
    ∷ says "energyPerBucket" "Energy per interval"
    ∷ takes "points" 1 (arg 0 ∷ lit " values" ∷ [])
    ∷ says "statSum" "Total"
    ∷ says "statImport" "Import"
    ∷ says "statExport" "Export"
    ∷ says "registers" "Registers (current)"
    ∷ says "noHistory" "No stored history yet."
    ∷ says "histFromStore"
        "The part before the last restart comes from the device's storage: one average per 15 minutes, not 10-second values."
    ∷ says "avg15" "15-min avg"
    ∷ says "timeEstimated" "Timestamps estimated (recorded before the clock was synchronised)."
    ∷ says "csvTitle" "Export load profile"
    ∷ says "csvHint"
        "All stored 15-minute values as CSV: meter readings, energy per interval, power. For checking the grid operator's bill and for settlement in a self-consumption group."
    ∷ says "csvFrom" "From"
    ∷ says "csvTo" "To"
    ∷ says "csvDownload" "Download CSV"
    ∷ says "csvAll" "Export everything, including intervals without a timestamp"
    ∷ says "csvFmtFullHint"
        "Meter readings, energy and power per interval, with notes on gaps. Semicolon-separated."
    ∷ says "csvOrder" "“From” must be before “To”."
    ∷ takes "csvStored" 3
        (arg 0 ∷ lit " intervals stored, " ∷ arg 1 ∷ lit " to " ∷ arg 2 ∷ lit "." ∷ [])
    ∷ takes "csvStoredNoTime" 1
        (arg 0 ∷ lit " intervals stored, still without a time (clock never synchronised)." ∷ [])
    ∷ takes "csvSumNoTime" 1 (arg 0 ∷ lit " intervals" ∷ [])
    ∷ []

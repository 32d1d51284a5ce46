-- ===== src/Language/German/Charts.antt =====
-- spa/src/i18n/de.js: the lines 116 to 163.
use esphome_gplug.Base.{[], ◌∷◌}
use esphome_gplug.Language.{Table, says, takes, lit, arg}

abbrev pub german_charts : Table
german_charts =
    says "tabLive" "Live"
    ∷ says "tabHist" "Verlauf"
    ∷ says "tabStream" "Daten"
    ∷ says "tabDevice" "Gerät"
    ∷ says "screenLive" "Live"
    ∷ says "screenHist" "Verlauf"
    ∷ says "screenStream" "Datenstrom"
    ∷ says "screenSetup" "Gerät"
    ∷ says "wlan" "WLAN"
    ∷ says "offline" "offline"
    ∷ says "activePower" "Wirkleistung 1.7.0 / 2.7.0"
    ∷ says "drawFromGrid" "Bezug aus dem Netz"
    ∷ says "feedToGrid" "Einspeisung ins Netz"
    ∷ says "ago60" "−60 min"
    ∷ says "now" "jetzt"
    ∷ says "max" "max"
    ∷ says "importLbl" "Bezug 1.8.0"
    ∷ says "exportLbl" "Einspeisung 2.8.0"
    ∷ says "phases" "Phasen · 21/41/61.7.0"
    ∷ says "rangeDay" "Tag"
    ∷ says "rangeWeek" "Woche"
    ∷ says "rangeMonth" "Monat"
    ∷ says "rangeYear" "Jahr"
    ∷ says "energyPerBucket" "Energie je Intervall"
    ∷ takes "points" 1 (arg 0 ∷ lit " Werte" ∷ [])
    ∷ says "statSum" "Summe"
    ∷ says "statImport" "Bezug"
    ∷ says "statExport" "Einspeisung"
    ∷ says "registers" "Register (aktuell)"
    ∷ says "noHistory" "Noch keine gespeicherte Historie."
    ∷ says "histFromStore"
        "Der Teil vor dem letzten Neustart stammt aus dem Gerätespeicher: ein Mittelwert je 15 Minuten, keine 10-Sekunden-Werte."
    ∷ says "avg15" "Ø 15 min"
    ∷ says "timeEstimated" "Zeitstempel geschätzt (vor der Uhrzeit-Synchronisierung aufgezeichnet)."
    ∷ says "csvTitle" "Lastgang exportieren"
    ∷ says "csvHint"
        "Alle gespeicherten 15-Minuten-Werte als CSV: Zählerstände, Energie je Intervall, Leistung. Zum Nachrechnen der VNB-Abrechnung und für die ZEV/LEG-Abrechnung."
    ∷ says "csvFrom" "Von"
    ∷ says "csvTo" "Bis"
    ∷ says "csvDownload" "CSV herunterladen"
    ∷ says "csvAll" "Alles exportieren, auch Intervalle ohne Zeitstempel"
    ∷ says "csvFmtFullHint"
        "Zählerstände, Energie und Leistung je Intervall, mit Hinweisen zu Lücken. Strichpunkt-getrennt."
    ∷ says "csvOrder" "„Von“ muss vor „Bis“ liegen."
    ∷ takes "csvStored" 3
        (arg 0 ∷ lit " Intervalle gespeichert, " ∷ arg 1 ∷ lit " bis " ∷ arg 2 ∷ lit "." ∷ [])
    ∷ takes "csvStoredNoTime" 1 (
        arg 0 ∷ lit " Intervalle gespeichert, noch ohne Uhrzeit (keine Zeitsynchronisierung)." ∷ [])
    ∷ takes "csvSumNoTime" 1 (arg 0 ∷ lit " Intervalle" ∷ [])
    ∷ []

-- ===== src/Language/Italian/Charts.antt =====
-- spa/src/i18n/it.js: the lines 117 to 164.
use esphome_gplug.Base.{[], ◌∷◌}
use esphome_gplug.Language.{Table, says, takes, lit, arg}

abbrev pub italian_charts : Table
italian_charts =
    says "tabLive" "In diretta"
    ∷ says "tabHist" "Storico"
    ∷ says "tabStream" "Dati"
    ∷ says "tabDevice" "Dispositivo"
    ∷ says "screenLive" "In diretta"
    ∷ says "screenHist" "Storico"
    ∷ says "screenStream" "Flusso di dati"
    ∷ says "screenSetup" "Dispositivo"
    ∷ says "wlan" "Wi-Fi"
    ∷ says "offline" "offline"
    ∷ says "activePower" "Potenza attiva 1.7.0 / 2.7.0"
    ∷ says "drawFromGrid" "Prelievo dalla rete"
    ∷ says "feedToGrid" "Immissione in rete"
    ∷ says "ago60" "−60 min"
    ∷ says "now" "ora"
    ∷ says "max" "max"
    ∷ says "importLbl" "Prelievo 1.8.0"
    ∷ says "exportLbl" "Immissione 2.8.0"
    ∷ says "phases" "Fasi · 21/41/61.7.0"
    ∷ says "rangeDay" "Giorno"
    ∷ says "rangeWeek" "Settimana"
    ∷ says "rangeMonth" "Mese"
    ∷ says "rangeYear" "Anno"
    ∷ says "energyPerBucket" "Energia per intervallo"
    ∷ takes "points" 1 (arg 0 ∷ lit " valori" ∷ [])
    ∷ says "statSum" "Totale"
    ∷ says "statImport" "Prelievo"
    ∷ says "statExport" "Immissione"
    ∷ says "registers" "Registri (attuali)"
    ∷ says "noHistory" "Nessuno storico salvato finora."
    ∷ says "histFromStore"
        "La parte precedente all'ultimo riavvio proviene dalla memoria del dispositivo: una media ogni 15 minuti, non valori a 10 secondi."
    ∷ says "avg15" "media 15 min"
    ∷ says "timeEstimated"
        "Marca temporale stimata (registrata prima della sincronizzazione dell'orologio)."
    ∷ says "csvTitle" "Esportare la curva di carico"
    ∷ says "csvHint"
        "Tutti i valori a 15 minuti salvati in formato CSV: letture del contatore, energia per intervallo, potenza. Per verificare la fattura del gestore di rete e per il conteggio di un RCP o di una CEL."
    ∷ says "csvFrom" "Dal"
    ∷ says "csvTo" "Al"
    ∷ says "csvDownload" "Scaricare il CSV"
    ∷ says "csvAll" "Esportare tutto, anche gli intervalli senza marca temporale"
    ∷ says "csvFmtFullHint"
        "Letture del contatore, energia e potenza per intervallo, con indicazioni sulle lacune. Separato da punto e virgola."
    ∷ says "csvOrder" "«Dal» dev'essere precedente ad «Al»."
    ∷ takes "csvStored" 3
        (arg 0 ∷ lit " intervalli salvati, dal " ∷ arg 1 ∷ lit " al " ∷ arg 2 ∷ lit "." ∷ [])
    ∷ takes "csvStoredNoTime" 1 (
        arg 0
        ∷ lit " intervalli salvati, ancora senza orario (nessuna sincronizzazione oraria)."
        ∷ [])
    ∷ takes "csvSumNoTime" 1 (arg 0 ∷ lit " intervalli" ∷ [])
    ∷ []

-- ===== src/Language/French/Charts.antt =====
-- spa/src/i18n/fr.js: the lines 118 to 165.
use esphome_gplug.Base.{[], ◌∷◌}
use esphome_gplug.Language.{Table, says, takes, lit, arg}

abbrev pub french_charts : Table
french_charts =
    says "tabLive" "Direct"
    ∷ says "tabHist" "Historique"
    ∷ says "tabStream" "Données"
    ∷ says "tabDevice" "Appareil"
    ∷ says "screenLive" "Direct"
    ∷ says "screenHist" "Historique"
    ∷ says "screenStream" "Flux de données"
    ∷ says "screenSetup" "Appareil"
    ∷ says "wlan" "Wi-Fi"
    ∷ says "offline" "hors ligne"
    ∷ says "activePower" "Puissance active 1.7.0 / 2.7.0"
    ∷ says "drawFromGrid" "Soutirage du réseau"
    ∷ says "feedToGrid" "Injection dans le réseau"
    ∷ says "ago60" "−60 min"
    ∷ says "now" "maintenant"
    ∷ says "max" "max"
    ∷ says "importLbl" "Soutirage 1.8.0"
    ∷ says "exportLbl" "Injection 2.8.0"
    ∷ says "phases" "Phases · 21/41/61.7.0"
    ∷ says "rangeDay" "Jour"
    ∷ says "rangeWeek" "Semaine"
    ∷ says "rangeMonth" "Mois"
    ∷ says "rangeYear" "Année"
    ∷ says "energyPerBucket" "Énergie par intervalle"
    ∷ takes "points" 1 (arg 0 ∷ lit " valeurs" ∷ [])
    ∷ says "statSum" "Total"
    ∷ says "statImport" "Soutirage"
    ∷ says "statExport" "Injection"
    ∷ says "registers" "Registres (actuels)"
    ∷ says "noHistory" "Aucun historique enregistré pour l'instant."
    ∷ says "histFromStore"
        "La partie antérieure au dernier redémarrage provient de la mémoire de l'appareil : une moyenne par 15 minutes, et non des valeurs à 10 secondes."
    ∷ says "avg15" "moy. 15 min"
    ∷ says "timeEstimated" "Horodatage estimé (enregistré avant la synchronisation de l'heure)."
    ∷ says "csvTitle" "Exporter la courbe de charge"
    ∷ says "csvHint"
        "Toutes les valeurs de 15 minutes enregistrées, au format CSV : index du compteur, énergie par intervalle, puissance. Pour vérifier la facture du GRD et pour le décompte d'un RCP ou d'une CEL."
    ∷ says "csvFrom" "Du"
    ∷ says "csvTo" "Au"
    ∷ says "csvDownload" "Télécharger le CSV"
    ∷ says "csvAll" "Tout exporter, y compris les intervalles sans horodatage"
    ∷ says "csvFmtFullHint"
        "Index du compteur, énergie et puissance par intervalle, avec des indications sur les lacunes. Séparé par des points-virgules."
    ∷ says "csvOrder" "« Du » doit précéder « Au »."
    ∷ takes "csvStored" 3
        (arg 0 ∷ lit " intervalles enregistrés, du " ∷ arg 1 ∷ lit " au " ∷ arg 2 ∷ lit "." ∷ [])
    ∷ takes "csvStoredNoTime" 1 (
        arg 0
        ∷ lit " intervalles enregistrés, encore sans heure (pas de synchronisation horaire)."
        ∷ [])
    ∷ takes "csvSumNoTime" 1 (arg 0 ∷ lit " intervalles" ∷ [])
    ∷ []

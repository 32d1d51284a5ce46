-- ===== src/Language/Italian/Device.antt =====
-- spa/src/i18n/it.js: the lines 167 to 262.
use esphome_gplug.Base.{[], ◌∷◌}
use esphome_gplug.Language.{Table, says, takes, lit, arg}

abbrev pub italian_device : Table
italian_device =
    says "streamRaw" "Grezzo · cifrato"
    ∷ says "streamPlain" "Decifrato"
    ∷ says "streamHex" "Hex"
    ∷ says "streamText" "Testo in chiaro"
    ∷ says "tailOn" "Registrazione in diretta attiva"
    ∷ says "tailOff" "Vista bloccata"
    ∷ takes "tailOnNote" 2 (
        lit "Buffer circolare "
        ∷ arg 0
        ∷ lit " frame · ~"
        ∷ arg 1
        ∷ lit " kB · i frame più vecchi vengono scartati"
        ∷ [])
    ∷ says "tailOffNote" "La vista non si aggiorna, il dispositivo continua a registrare"
    ∷ says "selectFrame" "Selezionare il frame"
    ∷ says "streamSelectAll" "Selezionare tutto"
    ∷ says "streamDeselectAll" "Annullare la selezione"
    ∷ takes "selCount" 2 (arg 0 ∷ lit " frame selezionati su " ∷ arg 1 ∷ [])
    ∷ says "selNone" "Senza selezione viene esportato l'intero buffer"
    ∷ says "frameMetaRaw" "GCM ciphertext"
    ∷ says "frameMetaTelegram" "Telegramma P1"
    ∷ says "frameMetaPlain" "Testo in chiaro"
    ∷ says "crcOk" "CRC OK"
    ∷ says "crcFail" "CRC FAIL"
    ∷ says "frameTxt" "Frame come .txt"
    ∷ says "copy" "Copiare"
    ∷ says "copied" "Copiato"
    ∷ says "exportSel" "Esportare la selezione"
    ∷ says "exportAll" "Esportare il buffer"
    ∷ takes "exportNoteSel" 1 (
        arg 0
        ∷ lit
            " frame selezionati come testo esadecimale, un frame per blocco, con marca temporale e CRC."
        ∷ [])
    ∷ takes "exportNoteAll" 1 (
        lit "Tutti i "
        ∷ arg 0
        ∷ lit
            " frame nel buffer come testo esadecimale, un frame per blocco, con marca temporale e CRC."
        ∷ [])
    ∷ says "dlRaw" "Hex grezzo .txt"
    ∷ says "dlPlain" "Decifrato .txt"
    ∷ says "dlText" "Testo in chiaro .txt"
    ∷ says "dlHint" "La chiave non viene mai esportata."
    ∷ says "dsmrNote"
        "DSMR trasmette telegrammi in chiaro, non cifrati — «Testo in chiaro» li mostra come arrivano, «Hex» gli stessi byte per la diagnosi."
    ∷ says "streamEmptyNone" "Nessun profilo di contatore ancora configurato."
    ∷ says "streamEmptyWaiting" "Nessun frame ricevuto finora."
    ∷ says "setupConn" "Connessione"
    ∷ says "host" "Host"
    ∷ says "ip" "IP"
    ∷ says "profile" "Profilo"
    ∷ says "setupKey" "Chiave (GUEK)"
    ∷ says "keySet" "valida"
    ∷ says "keyInvalidBadge" "non valida"
    ∷ says "keyNote" "Salvata solo sul dispositivo. Mai visualizzata in chiaro né esportata."
    ∷ says "language" "Lingua"
    ∷ says "languageHint" "Salvata in questo browser"
    ∷ says "theme" "Aspetto"
    ∷ says "themeHint" "Salvato in questo browser"
    ∷ says "themeLight" "Chiaro"
    ∷ says "themeDark" "Scuro"
    ∷ says "fwTitle" "Firmware e riavvio"
    ∷ says "fwEsphome" "ESPHome"
    ∷ says "fwBuild" "Build"
    ∷ says "fwUptime" "Tempo di attività"
    ∷ takes "fwUptimeDays" 2 (arg 0 ∷ lit " g " ∷ arg 1 ∷ lit " h" ∷ [])
    ∷ says "fwPick" "Scegliere il file del firmware"
    ∷ says "fwHint"
        "Scegliete un file in formato OTA (firmware.ota.bin), ad esempio dall'ESPHome Device Builder: Download → formato OTA."
    ∷ says "fwNotImage" "Non è un file di firmware per il gPlug."
    ∷ says "fwFactory"
        "Questo è un file factory per la prima installazione via USB. Scegliete il file in formato OTA."
    ∷ says "fwWrongChip" "Questo firmware è per un altro chip, non per il gPlug (ESP32-C3)."
    ∷ says "fwTooBig" "Il file è troppo grande per la memoria firmware del gPlug."
    ∷ takes "fwOtherName" 2 (
        lit "Attenzione: firmware per «"
        ∷ arg 0
        ∷ lit "», questo dispositivo si chiama «"
        ∷ arg 1
        ∷ lit "»."
        ∷ [])
    ∷ says "fwPassword" "Password OTA"
    ∷ says "fwInstall" "Installare"
    ∷ says "fwCancel" "Annullare"
    ∷ says "fwUploading" "Trasferimento del firmware…"
    ∷ says "fwKeepPower"
        "Non scollegate il dispositivo dalla corrente e lasciate aperta questa pagina."
    ∷ says "fwRebooting" "Il dispositivo si riavvia…"
    ∷ says "fwDone" "Firmware aggiornato"
    ∷ says "fwRestarted" "Riavviato"
    ∷ says "fwReload" "Ricaricare la pagina"
    ∷ says "fwSameBuild"
        "Il dispositivo funziona di nuovo, ma con il firmware che aveva prima: o era lo stesso file, oppure è tornato alla versione precedente dopo un avvio fallito."
    ∷ says "fwFailed" "Aggiornamento non riuscito"
    ∷ says "fwAuth" "Password OTA errata."
    ∷ says "fwRejected" "Il dispositivo ha rifiutato il file."
    ∷ says "fwNoReturn" "Il dispositivo non si rifà vivo. Ricaricate la pagina fra qualche minuto."
    ∷ says "fwConnLost" "La connessione si è interrotta durante il trasferimento."
    ∷ says "fwVersion" "METER"
    ∷ says "fwRelCheck" "Cerca aggiornamenti"
    ∷ says "fwRelChecking" "Ricerca aggiornamenti…"
    ∷ says "fwRelHint"
        "Interroga la pagina delle versioni su github.io. Il dispositivo non controlla mai da solo."
    ∷ takes "fwRelNone" 1 (arg 0 ∷ lit " è la versione più recente." ∷ [])
    ∷ takes "fwRelAvail" 2 (lit "Aggiornamento disponibile: " ∷ arg 0 ∷ lit " → " ∷ arg 1 ∷ [])
    ∷ says "fwRelNotes" "Novità"
    ∷ takes "fwRelInstall" 1 (lit "Installa " ∷ arg 0 ∷ [])
    ∷ says "fwRelConfirmHint"
        "Il dispositivo scarica il firmware da github.io e si riavvia. Il quarto d'ora in corso va perso; impostazioni e storico vengono mantenuti."
    ∷ says "fwRelConfirm" "Installa ora"
    ∷ says "fwRelDownloading" "Il dispositivo scarica il firmware…"
    ∷ says "fwRelErrCheck"
        "Ricerca aggiornamenti non riuscita. Riprovate più tardi o caricate il file firmware qui sotto."
    ∷ says "fwRelErrInstall" "Download non riuscito; il firmware attuale continua a funzionare."
    ∷ says "fwRelGone" "Nessun aggiornamento più disponibile. Cercate di nuovo."
    ∷ says "rsButton" "Riavvia dispositivo"
    ∷ says "rsHint"
        "I dati in tempo reale si interrompono per poco, i valori al minuto dell'ultima ora e l'andamento della memoria sulle 24 h ripartono da zero."
    ∷ says "rsConfirm" "Riavviare davvero?"
    ∷ says "rsBack" "Il dispositivo è di nuovo attivo"
    ∷ says "rsLogged" "Il riavvio è registrato nel registro eventi."
    ∷ says "rsFailed" "Riavvio non riuscito"
    ∷ says "rsFromSpa" "dall'interfaccia web"
    ∷ []

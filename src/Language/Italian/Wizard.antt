-- ===== src/Language/Italian/Wizard.antt =====
-- spa/src/i18n/it.js: the lines 6 to 113.
use esphome_gplug.Base.{[], ◌∷◌}
use esphome_gplug.Language.{Table, says, takes, lit, arg}

abbrev pub italian_wizard : Table
italian_wizard =
    says "brand" "Adattatore IoT"
    ∷ says "title" "Configurazione METER"
    ∷ says "next" "Avanti"
    ∷ says "back" "Indietro"
    ∷ says "skip" "Salta"
    ∷ says "finish" "Fine"
    ∷ says "loading" "Caricamento…"
    ∷ says "error" "Errore"
    ∷ says "retry" "Riprova"
    ∷ says "errTimeout"
        "Il dispositivo non risponde. Verificare che sia acceso e raggiungibile, poi riprovare."
    ∷ says "errNetwork" "Dispositivo non raggiungibile. Verificare la connessione Wi-Fi al gPlug."
    ∷ says "errServer" "Errore dal dispositivo"
    ∷ says "errNoStoredKey"
        "Sul dispositivo non è salvata alcuna chiave. Inserite di nuovo la chiave (GUEK)."
    ∷ says "errHistoryOff"
        "Il dispositivo non salva alcuno storico (area di memoria non disponibile)."
    ∷ says "welcome" "Benvenuti"
    ∷ says "welcomeText"
        "Questa procedura configura il gPlug in tre passi: dispositivo, Smart Meter, fine."
    ∷ says "version" "Firmware"
    ∷ says "hardware" "Dispositivo"
    ∷ says "hardwareText" "Quale gPlug possedete? La denominazione è indicata sull'involucro."
    ∷ says "pins" "Assegnazione dei pin (modificare solo se necessario)"
    ∷ says "pinHint" "ESP32-C3: GPIO 0–21. Vuoto = non presente."
    ∷ says "pinRx" "HAN RX"
    ∷ says "pinRed" "LED rosso"
    ∷ says "pinGreen" "LED verde"
    ∷ says "pinBlue" "LED blu"
    ∷ says "pinButton" "Pulsante"
    ∷ says "none" "–"
    ∷ says "meter" "Smart Meter"
    ∷ says "meterText"
        "Il gPlug ascolta ciò che il contatore invia e propone il profilo adatto. Il profilo determina i valori letti."
    ∷ says "meterTextManual"
        "Scegliete il profilo del vostro gestore di rete. Determina il protocollo, la velocità di trasmissione e i valori letti."
    ∷ says "detectTitle" "Riconoscimento del contatore"
    ∷ says "detectWaiting" "In attesa di segnali dal contatore…"
    ∷ says "detectWaitingHint"
        "Di solito occorrono solo pochi secondi. Potete anche scegliere il profilo manualmente."
    ∷ says "detectWaitingLong"
        "Finora non è arrivato nulla. Verificate il cavo verso l'interfaccia cliente – presso alcuni gestori di rete dev'essere prima attivata."
    ∷ says "detectSignal" "Segnali ricevuti, formato non ancora riconosciuto…"
    ∷ says "detectFound" "Contatore riconosciuto"
    ∷ says "detectProtoDsmr" "P1 DSMR, in chiaro"
    ∷ says "detectProtoDlms" "HDLC/DLMS"
    ∷ says "detectEncrypted" "cifrato"
    ∷ says "detectPlain" "non cifrato"
    ∷ says "detectKeyNeeded"
        "Il contatore invia dati cifrati. Vi serve la chiave (GUEK) del vostro gestore di rete."
    ∷ says "detectNoFit"
        "Per questo dispositivo non è previsto alcun profilo con questo protocollo. Verificate il tipo di gPlug."
    ∷ says "detectPick" "Scegliete il profilo del vostro gestore di rete:"
    ∷ says "otherProfile" "Scegliere un altro profilo"
    ∷ says "key" "Chiave (GUEK)"
    ∷ says "keyHint"
        "32 caratteri esadecimali. La chiave si ottiene dal gestore di rete. Viene salvata solo sul dispositivo e non è più visualizzata."
    ∷ says "keyOptionalHint" "Lasciate vuoto se il contatore invia dati non cifrati."
    ∷ says "keyInvalid" "La chiave deve essere di 32 caratteri esadecimali."
    ∷ says "encrypted" "cifrato"
    ∷ says "noPresetForVariant" "Per questo dispositivo non è previsto alcun profilo."
    ∷ says "showAll" "Mostrare tutti i profili"
    ∷ says "values" "Valori"
    ∷ says "wifi" "Wi-Fi"
    ∷ says "wifiText"
        "Collegate il gPlug alla vostra rete domestica. Sarà poi raggiungibile all'indirizzo indicato qui sotto."
    ∷ says "ssid" "Rete"
    ∷ says "connect" "Connetti"
    ∷ says "signal" "Segnale"
    ∷ says "password" "Password"
    ∷ says "scan" "Cercare le reti"
    ∷ says "manual" "Inserire la rete manualmente"
    ∷ says "connecting" "Connessione…"
    ∷ says "connected" "Connesso"
    ∷ says "connectFailed" "Connessione non riuscita. Verificare la password."
    ∷ says "changeWifi" "Cambiare Wi-Fi"
    ∷ says "done" "Fine"
    ∷ says "doneText" "Il gPlug è configurato e legge il contatore."
    ∷ says "waitingData" "In attesa di dati dal contatore…"
    ∷ says "dataOk" "Dati aggiornati"
    ∷ says "noData" "Nessun dato"
    ∷ says "noDataHint"
        "Il contatore non invia nulla. Verificare il collegamento, il profilo e la chiave."
    ∷ says "keyWrongHint" "Il contatore invia dati cifrati, ma la chiave (GUEK) non corrisponde."
    ∷ says "keyWrong" "Chiave non valida"
    ∷ says "openLive" "Aprire la vista in tempo reale"
    ∷ says "checkTitle" "Collegamento con il contatore"
    ∷ says "checkWaiting" "In attesa dei primi dati dal contatore…"
    ∷ says "checkWaitingHint" "A seconda del contatore può richiedere fino a un minuto."
    ∷ says "checkOk" "Dati ricevuti"
    ∷ says "meterId" "Contatore"
    ∷ says "continueAnyway" "Continuare comunque alla vista in tempo reale"
    ∷ says "dgLabel" "Verificare la configurazione"
    ∷ says "fixHardware" "Verificare dispositivo e collegamento"
    ∷ says "fixMeter" "Cambiare il profilo del contatore"
    ∷ says "fixKey" "Inserire di nuovo la chiave"
    ∷ says "dgSilent" "Nessun segnale dal contatore"
    ∷ says "dgSilentHint"
        "All'interfaccia cliente non arriva nulla. Verificate il cavo e se è selezionato il tipo di gPlug corretto. Presso molti gestori di rete l'interfaccia cliente dev'essere prima attivata – in caso di dubbio informatevi."
    ∷ says "dgGarbled" "Dati illeggibili"
    ∷ says "dgGarbledPill" "Dati illeggibili"
    ∷ says "dgGarbledHint"
        "Il contatore trasmette, ma i dati non corrispondono al profilo selezionato (protocollo o velocità di trasmissione). Di solito è sufficiente un altro profilo di contatore."
    ∷ says "dgNoMatch" "Nessun valore corrispondente"
    ∷ says "dgNoMatchPill" "Nessun valore"
    ∷ says "dgNoMatchHint"
        "Il contatore invia dati leggibili, ma non contengono nessuno dei valori del profilo selezionato. Scegliete il profilo del vostro contatore o del gestore di rete."
    ∷ says "dgProtocol" "Il profilo non corrisponde al contatore"
    ∷ says "dgProtocolPill" "Profilo errato"
    ∷ says "dgProtocolHint"
        "Il contatore parla un protocollo diverso da quello atteso dal profilo selezionato. Scegliete di nuovo il profilo – viene proposto il tipo di contatore riconosciuto."
    ∷ says "dgKey" "La chiave non corrisponde"
    ∷ says "dgKeyHint"
        "Il contatore invia dati cifrati, ma la chiave (GUEK) non li decifra. La chiave si ottiene dal gestore di rete."
    ∷ says "keepKey" "Usare la chiave salvata"
    ∷ says "keepKeyHint" "La chiave resta sul dispositivo e non viene visualizzata."
    ∷ takes "keyFingerprint" 1
        (lit "Identificativo " ∷ arg 0 ∷ lit " (checksum, cambia con la chiave)" ∷ [])
    ∷ says "keyCheck" "Confronta con la lettera del gestore di rete"
    ∷ says "keyCheckBtn" "Verifica"
    ∷ says "keyMatch" "Corrisponde alla chiave salvata."
    ∷ says "keyMismatch"
        "Non corrisponde. Disattivi l'interruttore e inserisca la chiave della lettera."
    ∷ []

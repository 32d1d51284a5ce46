-- ===== src/Language/Italian/Messages.antt =====
-- spa/src/i18n/it.js: the lines 265 to 376.
use esphome_gplug.Base.{[], ◌∷◌}
use esphome_gplug.Language.{Table, says, takes, lit, arg}

abbrev pub italian_messages : Table
italian_messages =
    says "memTitle" "Memoria"
    ∷ says "memFree" "Libera"
    ∷ says "memMin" "Minimo dall'avvio"
    ∷ says "memLargest" "Blocco più grande"
    ∷ says "memMinShort" "Minimo"
    ∷ says "memSampled" "Misurato alle"
    ∷ says "memStack" "Stack libero (loop / HTTP)"
    ∷ takes "memTrend" 1 (lit "Andamento, ultime " ∷ arg 0 ∷ [])
    ∷ says "memWaiting" "La prima misura segue poco dopo l'avvio."
    ∷ says "memHint"
        "Una linea che scende di continuo per giorni indica una perdita di memoria. Un riavvio azzera l'andamento."
    ∷ takes "memSummary" 1 (arg 0 ∷ lit " liberi" ∷ [])
    ∷ says "logTitle" "Registro eventi"
    ∷ says "logHint"
        "Gli ultimi 32 eventi, salvati nel dispositivo e conservati al riavvio. Mostrano soprattutto perché il dispositivo si è riavviato."
    ∷ says "logEmpty" "Nessun evento registrato finora."
    ∷ says "logCopy" "Copiare il registro"
    ∷ says "logDownload" "Salvare come file"
    ∷ says "copyFailedShort" "Non possibile"
    ∷ says "copyFailed"
        "Questo browser non consente la copia tramite una connessione non cifrata. Salvate invece il registro come file."
    ∷ takes "logRepeat" 1 (lit "ripetuto " ∷ arg 0 ∷ lit "×" ∷ [])
    ∷ takes "logUptime" 1 (lit "dopo " ∷ arg 0 ∷ lit " di funzionamento" ∷ [])
    ∷ takes "logHeap" 1 (arg 0 ∷ lit " kB liberi" ∷ [])
    ∷ takes "logLowFree" 1 (lit "memoria libera " ∷ arg 0 ∷ lit " kB" ∷ [])
    ∷ takes "logLowLargest" 1 (lit "blocco più grande " ∷ arg 0 ∷ lit " kB" ∷ [])
    ∷ takes "logSockets" 2 (arg 0 ∷ lit " connessioni su " ∷ arg 1 ∷ lit " occupate" ∷ [])
    ∷ says "evBoot" "Riavvio"
    ∷ says "evOta" "Firmware aggiornato"
    ∷ says "evWifiUp" "Wi-Fi connesso"
    ∷ says "evWifiLost" "Wi-Fi perso"
    ∷ says "evMeterLost" "Nessun dato dal contatore"
    ∷ says "evMeterOk" "Dati del contatore ripristinati"
    ∷ says "evConfig" "Configurazione modificata"
    ∷ says "evStorage" "Problema di memoria"
    ∷ says "evButton" "Pulsante premuto: credenziali Wi-Fi cancellate"
    ∷ says "evLowHeap" "Memoria scarsa"
    ∷ says "evRestart" "Riavvio richiesto"
    ∷ says "evSockets" "Connessioni quasi esaurite"
    ∷ says "evUnknown" "Evento sconosciuto"
    ∷ says "rrPoweron" "Alimentazione inserita"
    ∷ says "rrExt" "Pin di reset"
    ∷ says "rrSw" "Riavvio dal firmware"
    ∷ says "rrPanic" "Crash"
    ∷ says "rrWdt" "Watchdog: il dispositivo non rispondeva più"
    ∷ says "rrBrownout" "Sottotensione: verificare l'alimentazione"
    ∷ says "rrUnknown" "Motivo sconosciuto"
    ∷ says "cfgHardware" "Dispositivo"
    ∷ says "cfgMeter" "Contatore"
    ∷ says "cfgWifi" "Wi-Fi"
    ∷ says "cfgMqtt" "MQTT"
    ∷ says "stWrite" "Scrittura nello storico non riuscita"
    ∷ says "stUnavail" "Memoria dello storico non disponibile"
    ∷ says "mqttTitle" "MQTT"
    ∷ says "mqttOff" "disattivato"
    ∷ says "mqttConnecting" "connessione…"
    ∷ says "mqttConnected" "connesso"
    ∷ says "mqttError" "in pausa"
    ∷ says "mqttErrTcp" "Broker non raggiungibile"
    ∷ says "mqttErrRefused" "Broker rifiuta"
    ∷ says "mqttErrAuth" "Accesso rifiutato"
    ∷ says "mqttState" "Stato"
    ∷ says "mqttSent" "Messaggi"
    ∷ takes "mqttStats" 2 (arg 0 ∷ lit " inviati · " ∷ arg 1 ∷ lit " scartati" ∷ [])
    ∷ says "mqttEnable" "Attiva MQTT"
    ∷ says "mqttHint"
        "Invia i valori del contatore a un broker MQTT, p. es. per Node-RED, ioBroker o InfluxDB. Home Assistant non ne ha bisogno."
    ∷ says "mqttHost" "Broker (nome o IP)"
    ∷ says "mqttPort" "Porta"
    ∷ says "mqttUser" "Utente (facoltativo)"
    ∷ says "mqttPassword" "Password (facoltativa)"
    ∷ says "mqttPasswordKeep" "invariata"
    ∷ says "mqttPasswordClear" "Cancella la password salvata"
    ∷ says "mqttPeriod" "Intervallo (secondi)"
    ∷ says "mqttQos" "QoS"
    ∷ says "mqttClientId" "ID client (facoltativo)"
    ∷ says "mqttRetain" "Conserva l’ultimo valore sul broker (retain)"
    ∷ says "mqttPreset" "Modello"
    ∷ says "mqttPresetJson" "JSON, un messaggio"
    ∷ says "mqttPresetEach" "Un topic per valore"
    ∷ says "mqttPresetInflux" "InfluxDB line protocol"
    ∷ says "mqttPresetCustom" "Personalizzato"
    ∷ says "mqttModePeriod" "Uno per intervallo"
    ∷ says "mqttModeEach" "Uno per valore"
    ∷ says "mqttTopic" "Topic"
    ∷ says "mqttPayload" "Messaggio"
    ∷ says "mqttKeys" "Segnaposto"
    ∷ says "mqttKeysHint" "Sostituire … con il nome o il codice OBIS di un registro:"
    ∷ says "mqttPreview" "Anteprima con i valori attuali"
    ∷ says "mqttPreviewNone" "Ancora nessun valore del contatore per l’anteprima."
    ∷ takes "mqttWorst" 2
        (lit "Messaggio al massimo " ∷ arg 0 ∷ lit " di " ∷ arg 1 ∷ lit " byte" ∷ [])
    ∷ takes "mqttWorstTopic" 2 (lit "topic al massimo " ∷ arg 0 ∷ lit " di " ∷ arg 1 ∷ [])
    ∷ says "mqttSave" "Salva"
    ∷ says "mqttSaved" "Salvato"
    ∷ says "mqttStatusEnable" "Invia lo stato del dispositivo"
    ∷ says "mqttStatusHint"
        "Memoria, firmware, Wi-Fi, tempo di attività e diagnosi del contatore in JSON, anche quando il contatore tace."
    ∷ says "mqttStatusPeriod" "Intervallo di stato (secondi)"
    ∷ says "mqttStatusTopic" "Topic di stato"
    ∷ says "mqttAvailTopic" "Topic di disponibilità"
    ∷ says "mqttAvailHint"
        "«online» dopo la connessione; se il gPlug scompare, il broker imposta «offline» (last will). Vuoto = disattivato. Entrambi i topic conoscono solo {device} e {mac}."
    ∷ says "mqttStatusPreview" "Messaggio di stato come sarebbe adesso"
    ∷ takes "tplAt" 3 (arg 0 ∷ lit ", carattere " ∷ arg 2 ∷ lit ": " ∷ arg 1 ∷ [])
    ∷ says "tplSyntax" "segnaposto senza } di chiusura"
    ∷ says "tplUnknown" "segnaposto o registro sconosciuto"
    ∷ says "tplContext" "segnaposto non adatto a questo tipo di messaggio"
    ∷ says "tplTopic" "+ e # non sono ammessi nel topic; «Uno per valore» richiede {name} o {obis}"
    ∷ says "tplEmpty" "non può essere vuoto"
    ∷ says "tplTooLong" "troppo lungo"
    ∷ says "tplOverflow" "può diventare troppo lungo con questo profilo del contatore"
    ∷ says "errMqttHost" "Broker mancante o troppo lungo."
    ∷ says "errMqttPort" "La porta deve essere tra 1 e 65535."
    ∷ says "errMqttPeriod" "L’intervallo deve essere tra 5 e 3600 secondi."
    ∷ says "errMqttLong" "ID client, utente e password possono avere al massimo 64 caratteri."
    ∷ []

-- ===== src/Language/German/Messages.antt =====
-- spa/src/i18n/de.js: the lines 264 to 375.
use esphome_gplug.Base.{[], ◌∷◌}
use esphome_gplug.Language.{Table, says, takes, lit, arg}

abbrev pub german_messages : Table
german_messages =
    says "memTitle" "Arbeitsspeicher"
    ∷ says "memFree" "Frei"
    ∷ says "memMin" "Minimum seit Start"
    ∷ says "memLargest" "Grösster Block"
    ∷ says "memMinShort" "Minimum"
    ∷ says "memSampled" "Gemessen um"
    ∷ says "memStack" "Stack frei (Loop / HTTP)"
    ∷ takes "memTrend" 1 (lit "Verlauf, letzte " ∷ arg 0 ∷ [])
    ∷ says "memWaiting" "Erster Messwert folgt kurz nach dem Start."
    ∷ says "memHint"
        "Fällt die Linie über Tage stetig, verliert die Firmware Speicher. Ein Neustart setzt den Verlauf zurück."
    ∷ takes "memSummary" 1 (arg 0 ∷ lit " frei" ∷ [])
    ∷ says "logTitle" "Ereignisprotokoll"
    ∷ says "logHint"
        "Die letzten 32 Ereignisse, im Gerät gespeichert und neustartfest. Zeigt vor allem, warum das Gerät neu gestartet ist."
    ∷ says "logEmpty" "Noch keine Ereignisse aufgezeichnet."
    ∷ says "logCopy" "Protokoll kopieren"
    ∷ says "logDownload" "Als Datei speichern"
    ∷ says "copyFailedShort" "Nicht möglich"
    ∷ says "copyFailed"
        "Dieser Browser erlaubt das Kopieren über eine unverschlüsselte Verbindung nicht. Speichern Sie das Protokoll stattdessen als Datei."
    ∷ takes "logRepeat" 1 (arg 0 ∷ lit "× wiederholt" ∷ [])
    ∷ takes "logUptime" 1 (lit "nach " ∷ arg 0 ∷ lit " Laufzeit" ∷ [])
    ∷ takes "logHeap" 1 (arg 0 ∷ lit " kB frei" ∷ [])
    ∷ takes "logLowFree" 1 (lit "freier Speicher " ∷ arg 0 ∷ lit " kB" ∷ [])
    ∷ takes "logLowLargest" 1 (lit "grösster Block " ∷ arg 0 ∷ lit " kB" ∷ [])
    ∷ takes "logSockets" 2 (arg 0 ∷ lit " von " ∷ arg 1 ∷ lit " Verbindungen belegt" ∷ [])
    ∷ says "evBoot" "Neustart"
    ∷ says "evOta" "Firmware aktualisiert"
    ∷ says "evWifiUp" "WLAN verbunden"
    ∷ says "evWifiLost" "WLAN getrennt"
    ∷ says "evMeterLost" "Keine Zählerdaten"
    ∷ says "evMeterOk" "Zählerdaten wieder da"
    ∷ says "evConfig" "Konfiguration geändert"
    ∷ says "evStorage" "Speicherproblem"
    ∷ says "evButton" "Taste gedrückt: WLAN-Zugangsdaten gelöscht"
    ∷ says "evLowHeap" "Wenig Arbeitsspeicher"
    ∷ says "evRestart" "Neustart angefordert"
    ∷ says "evSockets" "Verbindungen knapp"
    ∷ says "evUnknown" "Unbekanntes Ereignis"
    ∷ says "rrPoweron" "Stromzufuhr eingeschaltet"
    ∷ says "rrExt" "Reset-Anschluss"
    ∷ says "rrSw" "Neustart durch die Firmware"
    ∷ says "rrPanic" "Absturz"
    ∷ says "rrWdt" "Watchdog: Gerät reagierte nicht mehr"
    ∷ says "rrBrownout" "Unterspannung: Stromversorgung prüfen"
    ∷ says "rrUnknown" "Grund unbekannt"
    ∷ says "cfgHardware" "Gerät"
    ∷ says "cfgMeter" "Zähler"
    ∷ says "cfgWifi" "WLAN"
    ∷ says "cfgMqtt" "MQTT"
    ∷ says "stWrite" "Schreiben in die Historie fehlgeschlagen"
    ∷ says "stUnavail" "Historienspeicher nicht verfügbar"
    ∷ says "mqttTitle" "MQTT"
    ∷ says "mqttOff" "aus"
    ∷ says "mqttConnecting" "verbindet…"
    ∷ says "mqttConnected" "verbunden"
    ∷ says "mqttError" "pausiert"
    ∷ says "mqttErrTcp" "Broker nicht erreichbar"
    ∷ says "mqttErrRefused" "Broker lehnt ab"
    ∷ says "mqttErrAuth" "Anmeldung abgelehnt"
    ∷ says "mqttState" "Status"
    ∷ says "mqttSent" "Nachrichten"
    ∷ takes "mqttStats" 2 (arg 0 ∷ lit " gesendet · " ∷ arg 1 ∷ lit " verworfen" ∷ [])
    ∷ says "mqttEnable" "MQTT aktivieren"
    ∷ says "mqttHint"
        "Sendet die Zählerwerte an einen MQTT-Broker, z. B. für Node-RED, ioBroker oder InfluxDB. Home Assistant braucht das nicht."
    ∷ says "mqttHost" "Broker (Name oder IP)"
    ∷ says "mqttPort" "Port"
    ∷ says "mqttUser" "Benutzer (optional)"
    ∷ says "mqttPassword" "Passwort (optional)"
    ∷ says "mqttPasswordKeep" "unverändert"
    ∷ says "mqttPasswordClear" "Gespeichertes Passwort löschen"
    ∷ says "mqttPeriod" "Intervall (Sekunden)"
    ∷ says "mqttQos" "QoS"
    ∷ says "mqttClientId" "Client-ID (optional)"
    ∷ says "mqttRetain" "Letzten Wert auf dem Broker behalten (retain)"
    ∷ says "mqttPreset" "Vorlage"
    ∷ says "mqttPresetJson" "JSON, eine Nachricht"
    ∷ says "mqttPresetEach" "Ein Topic pro Wert"
    ∷ says "mqttPresetInflux" "InfluxDB Line Protocol"
    ∷ says "mqttPresetCustom" "Eigene"
    ∷ says "mqttModePeriod" "Eine pro Intervall"
    ∷ says "mqttModeEach" "Eine pro Wert"
    ∷ says "mqttTopic" "Topic"
    ∷ says "mqttPayload" "Nachricht"
    ∷ says "mqttKeys" "Platzhalter"
    ∷ says "mqttKeysHint" "Für … den Namen oder OBIS-Code eines Registers einsetzen:"
    ∷ says "mqttPreview" "Vorschau mit den aktuellen Werten"
    ∷ says "mqttPreviewNone" "Noch keine Zählerwerte für die Vorschau."
    ∷ takes "mqttWorst" 2
        (lit "Nachricht höchstens " ∷ arg 0 ∷ lit " von " ∷ arg 1 ∷ lit " Bytes" ∷ [])
    ∷ takes "mqttWorstTopic" 2 (lit "Topic höchstens " ∷ arg 0 ∷ lit " von " ∷ arg 1 ∷ [])
    ∷ says "mqttSave" "Speichern"
    ∷ says "mqttSaved" "Gespeichert"
    ∷ says "mqttStatusEnable" "Gerätestatus senden"
    ∷ says "mqttStatusHint"
        "Speicher, Firmware, WLAN, Laufzeit und Zählerdiagnose als JSON, auch wenn der Zähler schweigt."
    ∷ says "mqttStatusPeriod" "Status-Intervall (Sekunden)"
    ∷ says "mqttStatusTopic" "Status-Topic"
    ∷ says "mqttAvailTopic" "Verfügbarkeits-Topic"
    ∷ says "mqttAvailHint"
        "Nach dem Verbinden «online»; verschwindet der gPlug, setzt der Broker «offline» (Last Will). Leer = aus. Beide Topics kennen nur {device} und {mac}."
    ∷ says "mqttStatusPreview" "Statusnachricht, wie sie jetzt aussähe"
    ∷ takes "tplAt" 3 (arg 0 ∷ lit ", Zeichen " ∷ arg 2 ∷ lit ": " ∷ arg 1 ∷ [])
    ∷ says "tplSyntax" "Platzhalter ohne schliessende }"
    ∷ says "tplUnknown" "unbekannter Platzhalter oder Register"
    ∷ says "tplContext" "Platzhalter passt nicht zu dieser Nachrichtenart"
    ∷ says "tplTopic"
        "+ und # sind im Topic nicht erlaubt; bei «Eine pro Wert» braucht es {name} oder {obis}"
    ∷ says "tplEmpty" "darf nicht leer sein"
    ∷ says "tplTooLong" "zu lang"
    ∷ says "tplOverflow" "kann mit diesem Zählerprofil zu lang werden"
    ∷ says "errMqttHost" "Broker fehlt oder ist zu lang."
    ∷ says "errMqttPort" "Port muss zwischen 1 und 65535 liegen."
    ∷ says "errMqttPeriod" "Intervall muss zwischen 5 und 3600 Sekunden liegen."
    ∷ says "errMqttLong" "Client-ID, Benutzer und Passwort dürfen höchstens 64 Zeichen lang sein."
    ∷ []

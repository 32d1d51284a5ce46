-- ===== src/Language/German/Wizard.antt =====
-- spa/src/i18n/de.js: the lines 5 to 112.
use esphome_gplug.Base.{[], ◌∷◌}
use esphome_gplug.Language.{Table, says, takes, lit, arg}

abbrev pub german_wizard : Table
german_wizard =
    says "brand" "IoT-Adapter"
    ∷ says "title" "METER Einrichtung"
    ∷ says "next" "Weiter"
    ∷ says "back" "Zurück"
    ∷ says "skip" "Überspringen"
    ∷ says "finish" "Fertig"
    ∷ says "loading" "Lade…"
    ∷ says "error" "Fehler"
    ∷ says "retry" "Erneut versuchen"
    ∷ says "errTimeout"
        "Gerät antwortet nicht. Bitte prüfen, ob es eingeschaltet und erreichbar ist, und erneut versuchen."
    ∷ says "errNetwork" "Gerät nicht erreichbar. WLAN-Verbindung zum gPlug prüfen."
    ∷ says "errServer" "Fehler vom Gerät"
    ∷ says "errNoStoredKey"
        "Auf dem Gerät ist kein Schlüssel gespeichert. Bitte den Schlüssel (GUEK) neu eingeben."
    ∷ says "errHistoryOff" "Das Gerät speichert keine Historie (Speicherbereich nicht verfügbar)."
    ∷ says "welcome" "Willkommen"
    ∷ says "welcomeText"
        "Dieser Assistent richtet Ihren gPlug in drei Schritten ein: Gerät, Smart Meter, Abschluss."
    ∷ says "version" "Firmware"
    ∷ says "hardware" "Gerät"
    ∷ says "hardwareText" "Welchen gPlug haben Sie? Die Bezeichnung steht auf dem Gehäuse."
    ∷ says "pins" "Pin-Belegung (nur bei Bedarf ändern)"
    ∷ says "pinHint" "ESP32-C3: GPIO 0–21. Leer = nicht vorhanden."
    ∷ says "pinRx" "HAN RX"
    ∷ says "pinRed" "LED rot"
    ∷ says "pinGreen" "LED grün"
    ∷ says "pinBlue" "LED blau"
    ∷ says "pinButton" "Taste"
    ∷ says "none" "–"
    ∷ says "meter" "Smart Meter"
    ∷ says "meterText"
        "Der gPlug hört mit, was Ihr Zähler sendet, und schlägt das passende Profil vor. Das Profil bestimmt die gelesenen Werte."
    ∷ says "meterTextManual"
        "Wählen Sie das Profil Ihres Netzbetreibers. Es bestimmt Protokoll, Baudrate und die gelesenen Werte."
    ∷ says "detectTitle" "Zähler erkennen"
    ∷ says "detectWaiting" "Warte auf Signale vom Zähler…"
    ∷ says "detectWaitingHint"
        "Meist dauert das nur ein paar Sekunden. Sie können das Profil auch selbst wählen."
    ∷ says "detectWaitingLong"
        "Noch nichts empfangen. Prüfen Sie das Kabel zur Kundenschnittstelle – bei manchen Netzbetreibern muss sie erst freigeschaltet werden."
    ∷ says "detectSignal" "Signale empfangen, Format noch nicht erkannt…"
    ∷ says "detectFound" "Zähler erkannt"
    ∷ says "detectProtoDsmr" "P1 DSMR, Klartext"
    ∷ says "detectProtoDlms" "HDLC/DLMS"
    ∷ says "detectEncrypted" "verschlüsselt"
    ∷ says "detectPlain" "unverschlüsselt"
    ∷ says "detectKeyNeeded"
        "Der Zähler sendet verschlüsselt. Sie brauchen den Schlüssel (GUEK) von Ihrem Netzbetreiber."
    ∷ says "detectNoFit"
        "Für dieses Gerät ist kein Profil mit diesem Protokoll hinterlegt. Prüfen Sie den gPlug-Typ."
    ∷ says "detectPick" "Bitte das Profil Ihres Netzbetreibers wählen:"
    ∷ says "otherProfile" "Anderes Profil wählen"
    ∷ says "key" "Schlüssel (GUEK)"
    ∷ says "keyHint"
        "32 Hex-Zeichen. Sie erhalten den Schlüssel von Ihrem Netzbetreiber. Er wird nur auf dem Gerät gespeichert und nie wieder angezeigt."
    ∷ says "keyOptionalHint" "Leer lassen, wenn Ihr Zähler unverschlüsselt sendet."
    ∷ says "keyInvalid" "Schlüssel muss aus 32 Hex-Zeichen bestehen."
    ∷ says "encrypted" "verschlüsselt"
    ∷ says "noPresetForVariant" "Für dieses Gerät ist kein Profil hinterlegt."
    ∷ says "showAll" "Alle Profile anzeigen"
    ∷ says "values" "Werte"
    ∷ says "wifi" "WLAN"
    ∷ says "wifiText"
        "Verbinden Sie den gPlug mit Ihrem Heimnetz. Danach ist er unter der unten angezeigten Adresse erreichbar."
    ∷ says "ssid" "Netzwerk"
    ∷ says "connect" "Verbinden"
    ∷ says "signal" "Signal"
    ∷ says "password" "Passwort"
    ∷ says "scan" "Netzwerke suchen"
    ∷ says "manual" "Netzwerk manuell eingeben"
    ∷ says "connecting" "Verbinde…"
    ∷ says "connected" "Verbunden"
    ∷ says "connectFailed" "Verbindung fehlgeschlagen. Passwort prüfen."
    ∷ says "changeWifi" "WLAN ändern"
    ∷ says "done" "Abschluss"
    ∷ says "doneText" "Der gPlug ist eingerichtet und liest den Zähler."
    ∷ says "waitingData" "Warte auf Daten vom Zähler…"
    ∷ says "dataOk" "Daten aktuell"
    ∷ says "noData" "Keine Daten"
    ∷ says "noDataHint" "Der Zähler sendet nichts. Anschluss, Profil und Schlüssel prüfen."
    ∷ says "keyWrongHint" "Der Zähler sendet verschlüsselt, aber der Schlüssel (GUEK) passt nicht."
    ∷ says "keyWrong" "Schlüssel ungültig"
    ∷ says "openLive" "Live-Ansicht öffnen"
    ∷ says "checkTitle" "Verbindung zum Zähler"
    ∷ says "checkWaiting" "Warte auf erste Daten vom Zähler…"
    ∷ says "checkWaitingHint" "Je nach Zähler kann das bis zu einer Minute dauern."
    ∷ says "checkOk" "Daten empfangen"
    ∷ says "meterId" "Zähler"
    ∷ says "continueAnyway" "Trotzdem zur Live-Ansicht"
    ∷ says "dgLabel" "Einrichtung prüfen"
    ∷ says "fixHardware" "Gerät und Anschluss prüfen"
    ∷ says "fixMeter" "Zählerprofil ändern"
    ∷ says "fixKey" "Schlüssel neu eingeben"
    ∷ says "dgSilent" "Keine Signale vom Zähler"
    ∷ says "dgSilentHint"
        "An der Kundenschnittstelle kommt nichts an. Prüfen Sie das Kabel und ob der richtige gPlug-Typ gewählt ist. Bei vielen Netzbetreibern muss die Kundenschnittstelle zuerst freigeschaltet werden – fragen Sie im Zweifel nach."
    ∷ says "dgGarbled" "Daten unlesbar"
    ∷ says "dgGarbledPill" "Daten unlesbar"
    ∷ says "dgGarbledHint"
        "Der Zähler sendet, aber die Daten passen nicht zum gewählten Profil (Protokoll oder Baudrate). Meist hilft ein anderes Zählerprofil."
    ∷ says "dgNoMatch" "Keine passenden Werte"
    ∷ says "dgNoMatchPill" "Keine Werte"
    ∷ says "dgNoMatchHint"
        "Der Zähler sendet lesbare Daten, aber keiner der Werte des gewählten Profils ist darin enthalten. Wählen Sie das Profil Ihres Zählers oder Netzbetreibers."
    ∷ says "dgProtocol" "Profil passt nicht zum Zähler"
    ∷ says "dgProtocolPill" "Falsches Profil"
    ∷ says "dgProtocolHint"
        "Der Zähler spricht ein anderes Protokoll als das gewählte Profil erwartet. Wählen Sie das Profil neu – der erkannte Zählertyp wird vorgeschlagen."
    ∷ says "dgKey" "Schlüssel passt nicht"
    ∷ says "dgKeyHint"
        "Der Zähler sendet verschlüsselt, aber der Schlüssel (GUEK) entschlüsselt die Daten nicht. Den Schlüssel erhalten Sie vom Netzbetreiber."
    ∷ says "keepKey" "Gespeicherten Schlüssel verwenden"
    ∷ says "keepKeyHint" "Der Schlüssel bleibt auf dem Gerät und wird nicht angezeigt."
    ∷ takes "keyFingerprint" 1
        (lit "Kennung " ∷ arg 0 ∷ lit " (Prüfsumme, ändert sich mit dem Schlüssel)" ∷ [])
    ∷ says "keyCheck" "Mit dem Brief des Netzbetreibers vergleichen"
    ∷ says "keyCheckBtn" "Prüfen"
    ∷ says "keyMatch" "Stimmt mit dem gespeicherten Schlüssel überein."
    ∷ says "keyMismatch"
        "Stimmt nicht überein. Schalter ausschalten und den Schlüssel aus dem Brief eingeben."
    ∷ []

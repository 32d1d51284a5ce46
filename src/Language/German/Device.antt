-- ===== src/Language/German/Device.antt =====
-- spa/src/i18n/de.js: the lines 166 to 261.
use esphome_gplug.Base.{[], ◌∷◌}
use esphome_gplug.Language.{Table, says, takes, lit, arg}

abbrev pub german_device : Table
german_device =
    says "streamRaw" "Roh · verschlüsselt"
    ∷ says "streamPlain" "Entschlüsselt"
    ∷ says "streamHex" "Hex"
    ∷ says "streamText" "Klartext"
    ∷ says "tailOn" "Live-Mitschnitt läuft"
    ∷ says "tailOff" "Ansicht eingefroren"
    ∷ takes "tailOnNote" 2 (
        lit "Ringpuffer "
        ∷ arg 0
        ∷ lit " Frames · ~"
        ∷ arg 1
        ∷ lit " kB · älteste Frames fallen raus"
        ∷ [])
    ∷ says "tailOffNote" "Anzeige aktualisiert sich nicht, das Gerät zeichnet weiter auf"
    ∷ says "selectFrame" "Frame auswählen"
    ∷ says "streamSelectAll" "Alle auswählen"
    ∷ says "streamDeselectAll" "Auswahl aufheben"
    ∷ takes "selCount" 2 (arg 0 ∷ lit " von " ∷ arg 1 ∷ lit " Frames ausgewählt" ∷ [])
    ∷ says "selNone" "Ohne Auswahl wird der ganze Puffer exportiert"
    ∷ says "frameMetaRaw" "GCM ciphertext"
    ∷ says "frameMetaTelegram" "P1-Telegramm"
    ∷ says "frameMetaPlain" "Klartext"
    ∷ says "crcOk" "CRC OK"
    ∷ says "crcFail" "CRC FAIL"
    ∷ says "frameTxt" "Frame als .txt"
    ∷ says "copy" "Kopieren"
    ∷ says "copied" "Kopiert"
    ∷ says "exportSel" "Auswahl exportieren"
    ∷ says "exportAll" "Puffer exportieren"
    ∷ takes "exportNoteSel" 1 (
        arg 0
        ∷ lit " ausgewählte Frames als Hex-Text, ein Frame pro Block, mit Zeitstempel und CRC."
        ∷ [])
    ∷ takes "exportNoteAll" 1 (
        lit "Alle "
        ∷ arg 0
        ∷ lit " gepufferten Frames als Hex-Text, ein Frame pro Block, mit Zeitstempel und CRC."
        ∷ [])
    ∷ says "dlRaw" "Roh-Hex .txt"
    ∷ says "dlPlain" "Entschlüsselt .txt"
    ∷ says "dlText" "Klartext .txt"
    ∷ says "dlHint" "Schlüssel wird nie mitexportiert."
    ∷ says "dsmrNote"
        "DSMR überträgt unverschlüsselte Klartext-Telegramme — „Klartext\" zeigt sie so, wie sie ankommen, „Hex\" dieselben Bytes zur Fehlersuche."
    ∷ says "streamEmptyNone" "Noch kein Zähler-Profil konfiguriert."
    ∷ says "streamEmptyWaiting" "Noch keine Frames empfangen."
    ∷ says "setupConn" "Verbindung"
    ∷ says "host" "Host"
    ∷ says "ip" "IP"
    ∷ says "profile" "Profil"
    ∷ says "setupKey" "Schlüssel (GUEK)"
    ∷ says "keySet" "gültig"
    ∷ says "keyInvalidBadge" "ungültig"
    ∷ says "keyNote"
        "Nur auf dem Gerät gespeichert. Wird nie im Klartext angezeigt oder exportiert."
    ∷ says "language" "Sprache"
    ∷ says "languageHint" "Wird in diesem Browser gespeichert"
    ∷ says "theme" "Darstellung"
    ∷ says "themeHint" "Wird in diesem Browser gespeichert"
    ∷ says "themeLight" "Hell"
    ∷ says "themeDark" "Dunkel"
    ∷ says "fwTitle" "Firmware und Neustart"
    ∷ says "fwEsphome" "ESPHome"
    ∷ says "fwBuild" "Build"
    ∷ says "fwUptime" "Laufzeit"
    ∷ takes "fwUptimeDays" 2 (arg 0 ∷ lit " T " ∷ arg 1 ∷ lit " h" ∷ [])
    ∷ says "fwPick" "Firmware-Datei wählen"
    ∷ says "fwHint"
        "Datei im OTA-Format wählen (firmware.ota.bin), z. B. aus dem ESPHome Device Builder: Herunterladen → OTA-Format."
    ∷ says "fwNotImage" "Keine Firmware-Datei für den gPlug."
    ∷ says "fwFactory"
        "Das ist eine Factory-Datei für die Erstinstallation per USB. Bitte die Datei im OTA-Format wählen."
    ∷ says "fwWrongChip"
        "Diese Firmware ist für einen anderen Chip, nicht für den gPlug (ESP32-C3)."
    ∷ says "fwTooBig" "Datei ist zu gross für den Firmware-Speicher des gPlug."
    ∷ takes "fwOtherName" 2 (
        lit "Achtung: Firmware für „"
        ∷ arg 0
        ∷ lit "“, dieses Gerät heisst „"
        ∷ arg 1
        ∷ lit "“."
        ∷ [])
    ∷ says "fwPassword" "OTA-Passwort"
    ∷ says "fwInstall" "Installieren"
    ∷ says "fwCancel" "Abbrechen"
    ∷ says "fwUploading" "Übertrage Firmware…"
    ∷ says "fwKeepPower" "Gerät nicht vom Strom trennen und diese Seite offen lassen."
    ∷ says "fwRebooting" "Gerät startet neu…"
    ∷ says "fwDone" "Firmware aktualisiert"
    ∷ says "fwRestarted" "Neu gestartet"
    ∷ says "fwReload" "Seite neu laden"
    ∷ says "fwSameBuild"
        "Gerät läuft wieder, aber mit der bisherigen Firmware: entweder war es dieselbe Datei, oder das Gerät ist nach einem Fehlstart zur vorherigen Version zurückgekehrt."
    ∷ says "fwFailed" "Update fehlgeschlagen"
    ∷ says "fwAuth" "OTA-Passwort falsch."
    ∷ says "fwRejected" "Das Gerät hat die Datei abgelehnt."
    ∷ says "fwNoReturn" "Gerät meldet sich nicht zurück. In ein paar Minuten die Seite neu laden."
    ∷ says "fwConnLost" "Verbindung während der Übertragung abgebrochen."
    ∷ says "fwVersion" "METER"
    ∷ says "fwRelCheck" "Nach Updates suchen"
    ∷ says "fwRelChecking" "Suche nach Updates…"
    ∷ says "fwRelHint" "Fragt die Release-Seite auf github.io ab. Das Gerät sucht nie von selbst."
    ∷ takes "fwRelNone" 1 (arg 0 ∷ lit " ist die neueste Version." ∷ [])
    ∷ takes "fwRelAvail" 2 (lit "Update verfügbar: " ∷ arg 0 ∷ lit " → " ∷ arg 1 ∷ [])
    ∷ says "fwRelNotes" "Was ist neu"
    ∷ takes "fwRelInstall" 1 (arg 0 ∷ lit " installieren" ∷ [])
    ∷ says "fwRelConfirmHint"
        "Das Gerät lädt die Firmware von github.io und startet neu. Die laufende Viertelstunde geht verloren, Einstellungen und Verlauf bleiben erhalten."
    ∷ says "fwRelConfirm" "Jetzt installieren"
    ∷ says "fwRelDownloading" "Gerät lädt Firmware herunter…"
    ∷ says "fwRelErrCheck"
        "Update-Suche fehlgeschlagen. Später erneut versuchen oder die Firmware-Datei unten hochladen."
    ∷ says "fwRelErrInstall" "Download fehlgeschlagen, die bisherige Firmware läuft weiter."
    ∷ says "fwRelGone" "Kein Update mehr verfügbar. Bitte erneut suchen."
    ∷ says "rsButton" "Gerät neu starten"
    ∷ says "rsHint"
        "Live-Daten fallen kurz aus, die Minutenwerte der letzten Stunde und der 24-h-Speicherverlauf beginnen neu."
    ∷ says "rsConfirm" "Wirklich neu starten?"
    ∷ says "rsBack" "Gerät läuft wieder"
    ∷ says "rsLogged" "Der Neustart ist im Ereignisprotokoll vermerkt."
    ∷ says "rsFailed" "Neustart fehlgeschlagen"
    ∷ says "rsFromSpa" "über die Weboberfläche"
    ∷ []

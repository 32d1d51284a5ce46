-- ===== src/Language/English/Device.antt =====
-- spa/src/i18n/en.js: the lines 166 to 261.
use esphome_gplug.Base.{[], ◌∷◌}
use esphome_gplug.Language.{Table, says, takes, lit, arg}

abbrev pub english_device : Table
english_device =
    says "streamRaw" "Raw · encrypted"
    ∷ says "streamPlain" "Decrypted"
    ∷ says "streamHex" "Hex"
    ∷ says "streamText" "Plain text"
    ∷ says "tailOn" "Live capture running"
    ∷ says "tailOff" "View frozen"
    ∷ takes "tailOnNote" 2 (
        lit "Ring buffer "
        ∷ arg 0
        ∷ lit " frames · ~"
        ∷ arg 1
        ∷ lit " kB · oldest frames drop out"
        ∷ [])
    ∷ says "tailOffNote" "The view does not update, the device keeps recording"
    ∷ says "selectFrame" "Select frame"
    ∷ says "streamSelectAll" "Select all"
    ∷ says "streamDeselectAll" "Clear selection"
    ∷ takes "selCount" 2 (arg 0 ∷ lit " of " ∷ arg 1 ∷ lit " frames selected" ∷ [])
    ∷ says "selNone" "With nothing selected the whole buffer is exported"
    ∷ says "frameMetaRaw" "GCM ciphertext"
    ∷ says "frameMetaTelegram" "P1 telegram"
    ∷ says "frameMetaPlain" "Plain text"
    ∷ says "crcOk" "CRC OK"
    ∷ says "crcFail" "CRC FAIL"
    ∷ says "frameTxt" "Frame as .txt"
    ∷ says "copy" "Copy"
    ∷ says "copied" "Copied"
    ∷ says "exportSel" "Export selection"
    ∷ says "exportAll" "Export buffer"
    ∷ takes "exportNoteSel" 1 (
        arg 0
        ∷ lit " selected frames as hex text, one frame per block, with timestamp and CRC."
        ∷ [])
    ∷ takes "exportNoteAll" 1 (
        lit "All "
        ∷ arg 0
        ∷ lit " buffered frames as hex text, one frame per block, with timestamp and CRC."
        ∷ [])
    ∷ says "dlRaw" "Raw hex .txt"
    ∷ says "dlPlain" "Decrypted .txt"
    ∷ says "dlText" "Plain text .txt"
    ∷ says "dlHint" "The key is never exported."
    ∷ says "dsmrNote"
        "DSMR transmits unencrypted plain-text telegrams — “Plain text” shows them as they arrive, “Hex” the same bytes for troubleshooting."
    ∷ says "streamEmptyNone" "No meter profile configured yet."
    ∷ says "streamEmptyWaiting" "No frames received yet."
    ∷ says "setupConn" "Connection"
    ∷ says "host" "Host"
    ∷ says "ip" "IP"
    ∷ says "profile" "Profile"
    ∷ says "setupKey" "Key (GUEK)"
    ∷ says "keySet" "valid"
    ∷ says "keyInvalidBadge" "invalid"
    ∷ says "keyNote" "Stored on the device only. Never shown in plain text or exported."
    ∷ says "language" "Language"
    ∷ says "languageHint" "Stored in this browser"
    ∷ says "theme" "Appearance"
    ∷ says "themeHint" "Stored in this browser"
    ∷ says "themeLight" "Light"
    ∷ says "themeDark" "Dark"
    ∷ says "fwTitle" "Firmware and restart"
    ∷ says "fwEsphome" "ESPHome"
    ∷ says "fwBuild" "Build"
    ∷ says "fwUptime" "Uptime"
    ∷ takes "fwUptimeDays" 2 (arg 0 ∷ lit " d " ∷ arg 1 ∷ lit " h" ∷ [])
    ∷ says "fwPick" "Choose firmware file"
    ∷ says "fwHint"
        "Choose a file in OTA format (firmware.ota.bin), for example from the ESPHome Device Builder: Download → OTA format."
    ∷ says "fwNotImage" "Not a firmware file for the gPlug."
    ∷ says "fwFactory"
        "This is a factory file for the first installation over USB. Please choose the file in OTA format."
    ∷ says "fwWrongChip" "This firmware is for a different chip, not for the gPlug (ESP32-C3)."
    ∷ says "fwTooBig" "The file is too large for the gPlug's firmware storage."
    ∷ takes "fwOtherName" 2 (
        lit "Careful: firmware for “"
        ∷ arg 0
        ∷ lit "”, this device is called “"
        ∷ arg 1
        ∷ lit "”."
        ∷ [])
    ∷ says "fwPassword" "OTA password"
    ∷ says "fwInstall" "Install"
    ∷ says "fwCancel" "Cancel"
    ∷ says "fwUploading" "Transferring firmware…"
    ∷ says "fwKeepPower" "Do not disconnect the device from power and leave this page open."
    ∷ says "fwRebooting" "Device is restarting…"
    ∷ says "fwDone" "Firmware updated"
    ∷ says "fwRestarted" "Restarted"
    ∷ says "fwReload" "Reload page"
    ∷ says "fwSameBuild"
        "The device is running again, but with the firmware it had before: either it was the same file, or the device returned to the previous version after a failed start."
    ∷ says "fwFailed" "Update failed"
    ∷ says "fwAuth" "Wrong OTA password."
    ∷ says "fwRejected" "The device rejected the file."
    ∷ says "fwNoReturn" "The device is not reporting back. Reload the page in a few minutes."
    ∷ says "fwConnLost" "The connection dropped during the transfer."
    ∷ says "fwVersion" "METER"
    ∷ says "fwRelCheck" "Check for updates"
    ∷ says "fwRelChecking" "Checking for updates…"
    ∷ says "fwRelHint" "Asks the release page on github.io. The device never checks on its own."
    ∷ takes "fwRelNone" 1 (arg 0 ∷ lit " is the latest version." ∷ [])
    ∷ takes "fwRelAvail" 2 (lit "Update available: " ∷ arg 0 ∷ lit " → " ∷ arg 1 ∷ [])
    ∷ says "fwRelNotes" "What's new"
    ∷ takes "fwRelInstall" 1 (lit "Install " ∷ arg 0 ∷ [])
    ∷ says "fwRelConfirmHint"
        "The device downloads the firmware from github.io and restarts. The quarter hour in progress is lost; settings and history are kept."
    ∷ says "fwRelConfirm" "Install now"
    ∷ says "fwRelDownloading" "Device is downloading the firmware…"
    ∷ says "fwRelErrCheck" "Update check failed. Try again later or upload the firmware file below."
    ∷ says "fwRelErrInstall" "Download failed; the current firmware keeps running."
    ∷ says "fwRelGone" "No update available any more. Please check again."
    ∷ says "rsButton" "Restart device"
    ∷ says "rsHint"
        "Live data pauses briefly, and the last hour's per-minute values and the 24 h memory trend start over."
    ∷ says "rsConfirm" "Really restart?"
    ∷ says "rsBack" "Device is back"
    ∷ says "rsLogged" "The restart is recorded in the event log."
    ∷ says "rsFailed" "Restart failed"
    ∷ says "rsFromSpa" "from the web app"
    ∷ []

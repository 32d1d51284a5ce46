-- ===== src/Language/English/Wizard.antt =====
-- spa/src/i18n/en.js: the lines 5 to 112.
use esphome_gplug.Base.{[], ◌∷◌}
use esphome_gplug.Language.{Table, says, takes, lit, arg}

abbrev pub english_wizard : Table
english_wizard =
    says "brand" "IoT adapter"
    ∷ says "title" "METER setup"
    ∷ says "next" "Next"
    ∷ says "back" "Back"
    ∷ says "skip" "Skip"
    ∷ says "finish" "Done"
    ∷ says "loading" "Loading…"
    ∷ says "error" "Error"
    ∷ says "retry" "Try again"
    ∷ says "errTimeout"
        "The device is not responding. Check that it is powered on and reachable, then try again."
    ∷ says "errNetwork" "Device not reachable. Check your Wi-Fi connection to the gPlug."
    ∷ says "errServer" "Error from the device"
    ∷ says "errNoStoredKey" "No key is stored on the device. Please enter the key (GUEK) again."
    ∷ says "errHistoryOff" "The device is not storing any history (storage area unavailable)."
    ∷ says "welcome" "Welcome"
    ∷ says "welcomeText"
        "This assistant sets up your gPlug in three steps: device, smart meter, done."
    ∷ says "version" "Firmware"
    ∷ says "hardware" "Device"
    ∷ says "hardwareText" "Which gPlug do you have? The model name is printed on the case."
    ∷ says "pins" "Pin assignment (change only if needed)"
    ∷ says "pinHint" "ESP32-C3: GPIO 0–21. Empty = not present."
    ∷ says "pinRx" "HAN RX"
    ∷ says "pinRed" "LED red"
    ∷ says "pinGreen" "LED green"
    ∷ says "pinBlue" "LED blue"
    ∷ says "pinButton" "Button"
    ∷ says "none" "–"
    ∷ says "meter" "Smart meter"
    ∷ says "meterText"
        "The gPlug listens to what your meter sends and suggests the matching profile. The profile determines which values are read."
    ∷ says "meterTextManual"
        "Choose your grid operator's profile. It determines the protocol, the baud rate and the values that are read."
    ∷ says "detectTitle" "Detecting the meter"
    ∷ says "detectWaiting" "Waiting for signals from the meter…"
    ∷ says "detectWaitingHint"
        "This usually takes only a few seconds. You can also choose the profile yourself."
    ∷ says "detectWaitingLong"
        "Nothing received yet. Check the cable to the customer interface – some grid operators have to enable it first."
    ∷ says "detectSignal" "Signals received, format not identified yet…"
    ∷ says "detectFound" "Meter detected"
    ∷ says "detectProtoDsmr" "P1 DSMR, plain text"
    ∷ says "detectProtoDlms" "HDLC/DLMS"
    ∷ says "detectEncrypted" "encrypted"
    ∷ says "detectPlain" "unencrypted"
    ∷ says "detectKeyNeeded"
        "The meter sends encrypted data. You need the key (GUEK) from your grid operator."
    ∷ says "detectNoFit"
        "No profile with this protocol is available for this device. Check the gPlug model."
    ∷ says "detectPick" "Please choose your grid operator's profile:"
    ∷ says "otherProfile" "Choose a different profile"
    ∷ says "key" "Key (GUEK)"
    ∷ says "keyHint"
        "32 hex characters. You get the key from your grid operator. It is stored on the device only and never shown again."
    ∷ says "keyOptionalHint" "Leave empty if your meter sends unencrypted data."
    ∷ says "keyInvalid" "The key must be 32 hex characters."
    ∷ says "encrypted" "encrypted"
    ∷ says "noPresetForVariant" "No profile is available for this device."
    ∷ says "showAll" "Show all profiles"
    ∷ says "values" "Values"
    ∷ says "wifi" "Wi-Fi"
    ∷ says "wifiText"
        "Connect the gPlug to your home network. It is then reachable at the address shown below."
    ∷ says "ssid" "Network"
    ∷ says "connect" "Connect"
    ∷ says "signal" "Signal"
    ∷ says "password" "Password"
    ∷ says "scan" "Search for networks"
    ∷ says "manual" "Enter network manually"
    ∷ says "connecting" "Connecting…"
    ∷ says "connected" "Connected"
    ∷ says "connectFailed" "Connection failed. Check the password."
    ∷ says "changeWifi" "Change Wi-Fi"
    ∷ says "done" "Done"
    ∷ says "doneText" "The gPlug is set up and is reading the meter."
    ∷ says "waitingData" "Waiting for data from the meter…"
    ∷ says "dataOk" "Data current"
    ∷ says "noData" "No data"
    ∷ says "noDataHint"
        "The meter is not sending anything. Check the connection, the profile and the key."
    ∷ says "keyWrongHint" "The meter sends encrypted data, but the key (GUEK) does not fit."
    ∷ says "keyWrong" "Key invalid"
    ∷ says "openLive" "Open live view"
    ∷ says "checkTitle" "Connection to the meter"
    ∷ says "checkWaiting" "Waiting for the first data from the meter…"
    ∷ says "checkWaitingHint" "Depending on the meter this can take up to a minute."
    ∷ says "checkOk" "Data received"
    ∷ says "meterId" "Meter"
    ∷ says "continueAnyway" "Continue to the live view anyway"
    ∷ says "dgLabel" "Check the setup"
    ∷ says "fixHardware" "Check device and connection"
    ∷ says "fixMeter" "Change meter profile"
    ∷ says "fixKey" "Enter the key again"
    ∷ says "dgSilent" "No signals from the meter"
    ∷ says "dgSilentHint"
        "Nothing is arriving at the customer interface. Check the cable and whether the right gPlug model is selected. Many grid operators have to enable the customer interface first – ask them if in doubt."
    ∷ says "dgGarbled" "Data unreadable"
    ∷ says "dgGarbledPill" "Data unreadable"
    ∷ says "dgGarbledHint"
        "The meter is sending, but the data does not match the selected profile (protocol or baud rate). A different meter profile usually helps."
    ∷ says "dgNoMatch" "No matching values"
    ∷ says "dgNoMatchPill" "No values"
    ∷ says "dgNoMatchHint"
        "The meter sends readable data, but none of the selected profile's values is in it. Choose the profile of your meter or grid operator."
    ∷ says "dgProtocol" "Profile does not match the meter"
    ∷ says "dgProtocolPill" "Wrong profile"
    ∷ says "dgProtocolHint"
        "The meter speaks a different protocol than the selected profile expects. Choose the profile again – the detected meter type is suggested."
    ∷ says "dgKey" "Key does not fit"
    ∷ says "dgKeyHint"
        "The meter sends encrypted data, but the key (GUEK) does not decrypt it. You get the key from your grid operator."
    ∷ says "keepKey" "Use the stored key"
    ∷ says "keepKeyHint" "The key stays on the device and is not shown."
    ∷ takes "keyFingerprint" 1 (lit "ID " ∷ arg 0 ∷ lit " (checksum, changes with the key)" ∷ [])
    ∷ says "keyCheck" "Compare with the grid operator's letter"
    ∷ says "keyCheckBtn" "Check"
    ∷ says "keyMatch" "Matches the stored key."
    ∷ says "keyMismatch" "Does not match. Turn the switch off and enter the key from the letter."
    ∷ []

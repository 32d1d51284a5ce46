-- ===== src/Language/English/Messages.antt =====
-- spa/src/i18n/en.js: the lines 264 to 375.
use esphome_gplug.Base.{[], ◌∷◌}
use esphome_gplug.Language.{Table, says, takes, lit, arg}

abbrev pub english_messages : Table
english_messages =
    says "memTitle" "Memory"
    ∷ says "memFree" "Free"
    ∷ says "memMin" "Minimum since start"
    ∷ says "memLargest" "Largest block"
    ∷ says "memMinShort" "Minimum"
    ∷ says "memSampled" "Measured at"
    ∷ says "memStack" "Stack free (loop / HTTP)"
    ∷ takes "memTrend" 1 (lit "Trend, last " ∷ arg 0 ∷ [])
    ∷ says "memWaiting" "The first sample follows shortly after start."
    ∷ says "memHint"
        "A line that keeps falling over days means the firmware is leaking memory. A restart clears the trend."
    ∷ takes "memSummary" 1 (arg 0 ∷ lit " free" ∷ [])
    ∷ says "logTitle" "Event log"
    ∷ says "logHint"
        "The last 32 events, stored on the device and kept across restarts. Above all it shows why the device restarted."
    ∷ says "logEmpty" "No events recorded yet."
    ∷ says "logCopy" "Copy log"
    ∷ says "logDownload" "Save as file"
    ∷ says "copyFailedShort" "Not possible"
    ∷ says "copyFailed"
        "This browser does not allow copying over an unencrypted connection. Save the log as a file instead."
    ∷ takes "logRepeat" 1 (lit "repeated " ∷ arg 0 ∷ lit "×" ∷ [])
    ∷ takes "logUptime" 1 (lit "after " ∷ arg 0 ∷ lit " of running time" ∷ [])
    ∷ takes "logHeap" 1 (arg 0 ∷ lit " kB free" ∷ [])
    ∷ takes "logLowFree" 1 (lit "free heap " ∷ arg 0 ∷ lit " kB" ∷ [])
    ∷ takes "logLowLargest" 1 (lit "largest block " ∷ arg 0 ∷ lit " kB" ∷ [])
    ∷ takes "logSockets" 2 (arg 0 ∷ lit " of " ∷ arg 1 ∷ lit " connection slots in use" ∷ [])
    ∷ says "evBoot" "Restart"
    ∷ says "evOta" "Firmware updated"
    ∷ says "evWifiUp" "Wi-Fi connected"
    ∷ says "evWifiLost" "Wi-Fi lost"
    ∷ says "evMeterLost" "No meter data"
    ∷ says "evMeterOk" "Meter data back"
    ∷ says "evConfig" "Configuration changed"
    ∷ says "evStorage" "Storage problem"
    ∷ says "evButton" "Button pressed: Wi-Fi credentials erased"
    ∷ says "evLowHeap" "Low memory"
    ∷ says "evRestart" "Restart requested"
    ∷ says "evSockets" "Connections nearly full"
    ∷ says "evUnknown" "Unknown event"
    ∷ says "rrPoweron" "Power applied"
    ∷ says "rrExt" "Reset pin"
    ∷ says "rrSw" "Restarted by the firmware"
    ∷ says "rrPanic" "Crash"
    ∷ says "rrWdt" "Watchdog: the device had stopped responding"
    ∷ says "rrBrownout" "Undervoltage: check the power supply"
    ∷ says "rrUnknown" "Reason unknown"
    ∷ says "cfgHardware" "Device"
    ∷ says "cfgMeter" "Meter"
    ∷ says "cfgWifi" "Wi-Fi"
    ∷ says "cfgMqtt" "MQTT"
    ∷ says "stWrite" "Writing to the history failed"
    ∷ says "stUnavail" "History storage unavailable"
    ∷ says "mqttTitle" "MQTT"
    ∷ says "mqttOff" "off"
    ∷ says "mqttConnecting" "connecting…"
    ∷ says "mqttConnected" "connected"
    ∷ says "mqttError" "paused"
    ∷ says "mqttErrTcp" "Broker unreachable"
    ∷ says "mqttErrRefused" "Broker refused"
    ∷ says "mqttErrAuth" "Login refused"
    ∷ says "mqttState" "Status"
    ∷ says "mqttSent" "Messages"
    ∷ takes "mqttStats" 2 (arg 0 ∷ lit " sent · " ∷ arg 1 ∷ lit " dropped" ∷ [])
    ∷ says "mqttEnable" "Enable MQTT"
    ∷ says "mqttHint"
        "Sends the meter values to an MQTT broker, e.g. for Node-RED, ioBroker or InfluxDB. Home Assistant does not need it."
    ∷ says "mqttHost" "Broker (name or IP)"
    ∷ says "mqttPort" "Port"
    ∷ says "mqttUser" "User (optional)"
    ∷ says "mqttPassword" "Password (optional)"
    ∷ says "mqttPasswordKeep" "unchanged"
    ∷ says "mqttPasswordClear" "Delete the stored password"
    ∷ says "mqttPeriod" "Interval (seconds)"
    ∷ says "mqttQos" "QoS"
    ∷ says "mqttClientId" "Client ID (optional)"
    ∷ says "mqttRetain" "Keep the last value on the broker (retain)"
    ∷ says "mqttPreset" "Template"
    ∷ says "mqttPresetJson" "JSON, one message"
    ∷ says "mqttPresetEach" "One topic per value"
    ∷ says "mqttPresetInflux" "InfluxDB line protocol"
    ∷ says "mqttPresetCustom" "Custom"
    ∷ says "mqttModePeriod" "One per interval"
    ∷ says "mqttModeEach" "One per value"
    ∷ says "mqttTopic" "Topic"
    ∷ says "mqttPayload" "Message"
    ∷ says "mqttKeys" "Placeholders"
    ∷ says "mqttKeysHint" "Replace … with a register's name or OBIS code:"
    ∷ says "mqttPreview" "Preview with the current values"
    ∷ says "mqttPreviewNone" "No meter values for the preview yet."
    ∷ takes "mqttWorst" 2 (lit "Message at most " ∷ arg 0 ∷ lit " of " ∷ arg 1 ∷ lit " bytes" ∷ [])
    ∷ takes "mqttWorstTopic" 2 (lit "topic at most " ∷ arg 0 ∷ lit " of " ∷ arg 1 ∷ [])
    ∷ says "mqttSave" "Save"
    ∷ says "mqttSaved" "Saved"
    ∷ says "mqttStatusEnable" "Send device status"
    ∷ says "mqttStatusHint"
        "Memory, firmware, Wi-Fi, uptime and meter diagnosis as JSON, even while the meter is silent."
    ∷ says "mqttStatusPeriod" "Status interval (seconds)"
    ∷ says "mqttStatusTopic" "Status topic"
    ∷ says "mqttAvailTopic" "Availability topic"
    ∷ says "mqttAvailHint"
        "\"online\" after connecting; if the gPlug disappears, the broker sets \"offline\" (last will). Empty = off. Both topics know only {device} and {mac}."
    ∷ says "mqttStatusPreview" "Status message as it would look now"
    ∷ takes "tplAt" 3 (arg 0 ∷ lit ", character " ∷ arg 2 ∷ lit ": " ∷ arg 1 ∷ [])
    ∷ says "tplSyntax" "placeholder without closing }"
    ∷ says "tplUnknown" "unknown placeholder or register"
    ∷ says "tplContext" "placeholder does not fit this kind of message"
    ∷ says "tplTopic" "+ and # are not allowed in the topic; “One per value” needs {name} or {obis}"
    ∷ says "tplEmpty" "must not be empty"
    ∷ says "tplTooLong" "too long"
    ∷ says "tplOverflow" "can get too long with this meter profile"
    ∷ says "errMqttHost" "Broker missing or too long."
    ∷ says "errMqttPort" "Port must be between 1 and 65535."
    ∷ says "errMqttPeriod" "Interval must be between 5 and 3600 seconds."
    ∷ says "errMqttLong" "Client ID, user and password may be at most 64 characters long."
    ∷ []

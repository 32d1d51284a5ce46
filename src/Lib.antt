-- ===== src/Lib.antt =====
-- Verification of the METER web app for gPlug adapters (the repository esphome-gplug): the logic of
-- the JavaScript that runs in the browser and of the simulated device that it is developed against.
--
-- The program. A gPlug reads a smart meter and serves a single-page app, spa/src. The app polls the
-- device's web service, shows live values and history, walks the user through the setup, updates the
-- firmware, and edits the topic and payload templates by which the device publishes over MQTT. The
-- MQTT card compiles and renders these templates itself, to show a preview and to find errors before
-- the device does.
--
-- Files.
--   Base            tests, lists and predicates that all parts share.
--   Text            strings as lists of code points, their UTF-8 bytes (`bytes`, `TextDecoder`), and
--                   decimal printing.
--   Template        spa/src/live/mqtt-template.js. Data has the limits, `PRESETS`, register table,
--                   snapshot and tokens; Escape has `escLen`, `escStr`, `escMeter`; Number has `num`
--                   and `iso`; Keys has `findReg` and the part of `compile` that knows the keys;
--                   Compile has the loop, `push`, `compile` and `compileFixed`; Render has `render`,
--                   `itemOk` and `toFields`. Their children hold the proofs.
--   Setup           the setup wizard. Meter has the decisions of spa/src/steps/meter.js; Route has
--                   `parseHash`, Save the request of `commit` with `toDescriptor`, and Wizard the
--                   component `App` of spa/src/main.js as a machine on events; Diag has the table of
--                   spa/src/diag.js, whose buttons are routes.
--   Hour            spa/src/hour.js. `lastHour` with its two loops over an array; Average holds the lemmas
--                   on the store, Arrays, Ring, Store and Slots those on the array and the loops.
--   Firmware        spa/src/live/firmware-card.js. Reboot has `waitForReboot`, Image `inspect`,
--                   Install the flows `install` and `restart`, Follow the flow `followInstall`, and
--                   Card the buttons of each phase and `checkRelease`.
--   Chart           Scrub has `useScrub` of spa/src/scrub.js with its handlers and Double the
--                   rounded numbers that it places a pointer by; Bars has `histBars` of
--                   spa/src/live/hist-tab.js, Ranges its effect that asks for and keeps the histories.
--   Language        the texts of the app. Its parts German, French, Italian and English hold the tables
--                   of spa/src/i18n, each in four files; the parent file has spa/tools/i18n-check.mjs
--                   and the look-up of a text, over any tables, Agree lemmas on the check, and Real the
--                   check at the app's tables; Spell says what a template shows; Choice has the language
--                   of the running app, spa/src/i18n/index.js.
--   Service         spa/src/api.js: the requests of its calls, what `req` makes of each way in which one
--                   can end, and the texts of errors. Base64 has `btoa` and the credentials, Auth when
--                   two are alike, Worded the text of each failure in the languages.
--   Live            tabs of the live view. Stream has the state, effects and handlers of
--                   spa/src/live/stream-tab.js and Stream.Export its export; Rounds, Moved and Current
--                   run it at a device that goes on receiving frames. Mqtt has the draft, the preview
--                   and the request of spa/src/live/mqtt-card.js and Mqtt.Texts what it says of errors;
--                   Save, Limits, Refused and Preview run it with the simulated device and the engine.
--   Mock            the simulated device, spa/mock/server.mjs. Mqtt has `mqttPost` with its checks,
--                   which compile the templates by the engine above; Status has `mqttCtx` and
--                   `mqttStatus`; Update has `updCheck` and `updInstall`, whose timers are events; Keys
--                   has the routes of the meter and its key, Routes the dispatch of a request, run
--                   on the calls of Service.
--
-- Conventions. A string is the list of its code points; where the source compares or cuts strings
-- after `TextDecoder`, the model compares and cuts their UTF-8 bytes, and a rendering is kept as its
-- bytes. A finite number is an exact fraction with a power of two below the line, so that `toFixed`
-- is exact; the place of a pointer on a chart is a quotient and a product that are rounded to 53 bits
-- each, for whole pixels. Bytes of an image's header that are no UTF-8 stay as they are. An epoch is a natural number of seconds, `Date.now` one of milliseconds; a quotient that
-- the source rounds down is the exact one. An exception is `none`, a refused request a value. What the
-- wizard does while a request is in flight is a list of events, in the order in which they happen; a
-- flow of the firmware card takes the answers of the device, with their times, as arguments, and a
-- polling loop is one over the list of its rounds. What the browser makes of a request or of a JSON
-- text, and what the device holds, are arguments too. The `error` of an answer is a string, and a
-- name that every JavaScript object inherits, like `constructor`, is not looked up in a table.
--
-- Fuel. The loop of `compile` runs on fuel, the length of the text; every round takes at least a byte.
-- Rounding a quotient by `b` doubles at most `53 + b` times, and a product with `n` is halved at most
-- `n + 1` times. Printing a number in decimal runs on the number, and the bars of a hole on the room that is left.
--
-- Not modelled: the live tab with the memory and the log card, the axis, the statistics and the export
-- of the history tab, and the tabs and steps that mostly lay out what the device answers; the markup
-- that the components return, styles, and calls of the browser's own interfaces; the simulated
-- device's history and live readings; the build scripts and the documentation site, the firmware in
-- C++ and the Python tools, which are other programs.
pub mod Base
pub mod Text
pub mod Template
pub mod Setup
pub mod Hour
pub mod Firmware
pub mod Chart
pub mod Language
pub mod Live
pub mod Service
pub mod Mock

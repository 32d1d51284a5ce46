-- ===== src/Language/English.antt =====
-- spa/src/i18n/en.js, in four parts.
pub mod Wizard
pub mod Charts
pub mod Device
pub mod Messages
use esphome_gplug.Base.{◌++◌}
use esphome_gplug.Language.{Table}
use esphome_gplug.Language.English.Wizard.{english_wizard}
use esphome_gplug.Language.English.Charts.{english_charts}
use esphome_gplug.Language.English.Device.{english_device}
use esphome_gplug.Language.English.Messages.{english_messages}

abbrev pub english : Table
english = english_wizard ++ english_charts ++ english_device ++ english_messages

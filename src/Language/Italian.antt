-- ===== src/Language/Italian.antt =====
-- spa/src/i18n/it.js, in four parts.
pub mod Wizard
pub mod Charts
pub mod Device
pub mod Messages
use esphome_gplug.Base.{◌++◌}
use esphome_gplug.Language.{Table}
use esphome_gplug.Language.Italian.Wizard.{italian_wizard}
use esphome_gplug.Language.Italian.Charts.{italian_charts}
use esphome_gplug.Language.Italian.Device.{italian_device}
use esphome_gplug.Language.Italian.Messages.{italian_messages}

abbrev pub italian : Table
italian = italian_wizard ++ italian_charts ++ italian_device ++ italian_messages

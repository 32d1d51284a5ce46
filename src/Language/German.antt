-- ===== src/Language/German.antt =====
-- spa/src/i18n/de.js, in four parts.
pub mod Wizard
pub mod Charts
pub mod Device
pub mod Messages
use esphome_gplug.Base.{◌++◌}
use esphome_gplug.Language.{Table}
use esphome_gplug.Language.German.Wizard.{german_wizard}
use esphome_gplug.Language.German.Charts.{german_charts}
use esphome_gplug.Language.German.Device.{german_device}
use esphome_gplug.Language.German.Messages.{german_messages}

abbrev pub german : Table
german = german_wizard ++ german_charts ++ german_device ++ german_messages

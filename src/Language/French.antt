-- ===== src/Language/French.antt =====
-- spa/src/i18n/fr.js, in four parts.
pub mod Wizard
pub mod Charts
pub mod Device
pub mod Messages
use esphome_gplug.Base.{◌++◌}
use esphome_gplug.Language.{Table}
use esphome_gplug.Language.French.Wizard.{french_wizard}
use esphome_gplug.Language.French.Charts.{french_charts}
use esphome_gplug.Language.French.Device.{french_device}
use esphome_gplug.Language.French.Messages.{french_messages}

abbrev pub french : Table
french = french_wizard ++ french_charts ++ french_device ++ french_messages

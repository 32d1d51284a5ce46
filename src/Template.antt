-- ===== src/Template.antt =====
-- The MQTT template engine, spa/src/live/mqtt-template.js.
pub mod Data
pub mod Escape
pub mod Number
pub mod Keys
pub mod Compile
pub mod Render
pub mod Tests

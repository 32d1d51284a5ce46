-- ===== src/Setup.antt =====
-- The setup wizard: spa/src/steps/meter.js, spa/src/diag.js and the routes and saving of spa/src/main.js.
pub mod Meter
pub mod Route
pub mod Save
pub mod Diag
pub mod Wizard
pub mod Tests

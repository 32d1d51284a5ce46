-- ===== src/Firmware.antt =====
-- The firmware card, spa/src/live/firmware-card.js: an update from a file or from the release, and a
-- restart. What the device answers to the requests of a flow, and when, is the flow's argument.
pub mod Reboot
pub mod Image
pub mod Install
pub mod Follow
pub mod Card
pub mod Tests

-- ===== src/Mock.antt =====
-- The simulated device, spa/mock/server.mjs.
pub mod Json
pub mod Keys
pub mod Mqtt
pub mod Status
pub mod Update
pub mod Routes
pub mod Tests

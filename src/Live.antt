-- ===== src/Live.antt =====
-- The tabs of the live view, spa/src/live.
pub mod Stream
pub mod Mqtt

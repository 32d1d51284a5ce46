-- ===== src/Chart.antt =====
-- The charts: the selection of a sample, spa/src/scrub.js, and the bars of spa/src/live/hist-tab.js.
pub mod Ranges
pub mod Double
pub mod Scrub
pub mod Bars
pub mod Tests

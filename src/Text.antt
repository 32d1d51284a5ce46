-- ===== src/Text.antt =====
-- JavaScript strings and their UTF-8 bytes: `TextEncoder`, `TextDecoder`, decimal printing. A string
-- is the list of its code points.
pub mod Utf8
pub mod Decimal
pub mod Laws
pub mod Equal

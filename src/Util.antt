-- ===== src/Util.antt =====
-- The package util: slices and maps (Data), strings (Strings), comma separated lists (Csv).
pub mod Data
pub mod Strings
pub mod Csv
pub mod Duration
pub mod Datetime

-- ===== src/Config.antt =====
-- config: names that are shown, the saved tabs and the function modes.
pub mod DisplayName
pub mod Throttles
pub mod Codec
pub mod Settings

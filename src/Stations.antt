-- ===== src/Stations.antt =====
-- The saved stations and preferences: stations/.
pub mod Profile
pub mod Store
pub mod Preferences

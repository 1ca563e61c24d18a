-- ===== src/Throttle.antt =====
-- throttle: the controller's state and its safety rules.
pub mod State
pub mod Link
pub mod Cabs
pub mod Drive
pub mod Functions
pub mod Tabs
pub mod Power
pub mod Programming
pub mod Preferences
pub mod Receive
pub mod Safety
pub mod Session

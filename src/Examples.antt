-- ===== src/Examples.antt =====
-- Tests: the theorems at concrete inputs.
mod Protocol
mod Capabilities
mod Throttle
mod Client
mod Session
mod Stations

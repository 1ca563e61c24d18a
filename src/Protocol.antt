-- ===== src/Protocol.antt =====
-- dccex/protocol: framing, typed messages and commands of the DCC-EX native protocol.
pub mod Number
pub mod Frame
pub mod Command
pub mod Message
pub mod Errors
pub mod Decoder

-- ===== src/Protocol.antt =====
-- The MQTT wire codec, internal/protocol/packet.go.
pub mod Result
pub mod Reader
pub mod VarInt
pub mod Codes
pub mod Props
pub mod Topic
pub mod Connect
pub mod Connack
pub mod Publish
pub mod Ack
pub mod Subscribe
pub mod Disconnect
mod Tests

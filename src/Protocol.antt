-- ===== src/Protocol.antt =====
-- pkg/protocol/protocol.go: the messages, and how they are written to and read from a connection.
pub mod Messages
pub mod MsgType
pub mod Wire
pub mod Stream
mod Tests

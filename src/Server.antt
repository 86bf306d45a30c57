-- ===== src/Server.antt =====
-- server.go: the Modbus TCP server. A handler gets the request's PDU and returns the bytes that it
-- writes to the connection, with the new state of what the goroutines share.
pub mod Frames
pub mod Handlers
pub mod Connection
pub mod Safety
pub mod Coherence
pub mod Writes
pub mod Blocks
pub mod Steps
pub mod Rounds
pub mod Detached
pub mod Accept
pub mod Responses
pub mod Stream
pub mod Typed
pub mod Refused
pub mod Overwritten
pub mod Replies

-- ===== src/Network.antt =====
-- src/core/network/impl: the HTTP client and server and the web sockets.
pub mod Message
pub mod Pending
pub mod Manager
pub mod Frames
pub mod Encoding
pub mod Zlib
pub mod Headers
pub mod Responses
pub mod Inbox
pub mod WebSocket

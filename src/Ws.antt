-- ===== src/Ws.antt =====
-- src/ws_client.cc: the WebSocket frame codec, the framed reader over a socket, and the URL parser.
pub mod Frame
pub mod Url
pub mod Transport
pub mod Reader
pub mod Sending
pub mod Uuid
pub mod Upgrade
mod Tests

-- ===== src/Websocket.antt =====
-- The websocket frames and rooms of websocket_9.
pub mod Examples
pub mod Wire
pub mod Frame
pub mod Decode
pub mod RoundTrip
pub mod Rooms
pub mod Sessions

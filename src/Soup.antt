-- ===== src/Soup.antt =====
-- The mediasoup client of mediasoup/src.
pub mod Examples
pub mod Random
pub mod Names
pub mod Jansson
pub mod World
pub mod Rooms
pub mod Channel
pub mod Requests
pub mod Server
pub mod Clients
pub mod Letters

-- ===== src/Connect.antt =====
-- connectServer/: the connection server.
pub mod Client
pub mod Receive
pub mod Events
pub mod Packets
pub mod Cutting
pub mod Arrivals
pub mod Stream
pub mod Pool
pub mod Lives
pub mod Reuse
pub mod Send
pub mod Accounts
pub mod Serving
pub mod Delivery
pub mod Rounds
mod Tests

-- ===== src/Client.antt =====
-- client/client.cpp: the library that producers and consumers link with.
pub mod Receive
pub mod Ask
pub mod Producer
pub mod Consumer
pub mod Arriving
pub mod Taking
pub mod Delivered
pub mod Acknowledged
pub mod Settled
pub mod Bounds
mod Tests

-- ===== src/Message.antt =====
-- message/message.cpp and the field codec of mq_util/mq_util.cpp: how the requests, replies and
-- deliveries are laid out in a packet, and how the logic server reads the requests back.
pub mod Wire
pub mod Request
pub mod Pack
pub mod Server
pub mod Read
pub mod Packet
pub mod Fields
pub mod Reading
pub mod Packing
pub mod RoundTrip
mod Tests

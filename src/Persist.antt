-- ===== src/Persist.antt =====
-- PersistenceServer/PersistenceServer.cpp: the files that durable objects are kept in.
pub mod Disk
pub mod Server
pub mod Publish
pub mod Consume
pub mod Recover
pub mod Merge
pub mod Run
pub mod Paths
pub mod Opened
pub mod Entries
pub mod Known
pub mod Steps
pub mod Recovery
pub mod Consumed
pub mod Cleared
mod Tests

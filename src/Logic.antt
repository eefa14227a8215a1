-- ===== src/Logic.antt =====
-- logicServer/logicServer.cpp: the message queues, the exchanges, and the logic server's handlers.
pub mod Queue
pub mod Delivery
pub mod Topic
pub mod Words
pub mod TopicMatch
pub mod Exchange
pub mod Picked
pub mod Routing
pub mod Keys
pub mod Bindings
pub mod Consumers
pub mod Turns
pub mod Server
pub mod Declare
pub mod Publish
pub mod Consume
pub mod Remove
pub mod Process
pub mod Once
pub mod Placed
pub mod Deliver
pub mod Acks
pub mod GivenBack
pub mod Lost
pub mod Entry
pub mod Pushing
pub mod Shared
pub mod Registry
pub mod Sound
pub mod Cancelled
pub mod Resend
mod Tests
mod ServerTests

-- ===== src/Lib.antt =====
-- WSMQ, a message queue in C++: clients send requests over TCP to a connection server, which hands
-- them to the logic server through a queue in shared memory; the logic server keeps exchanges and
-- queues, sends its answers and the messages back the same way, and reports durable objects to a
-- persistence server through two more such queues.
--
-- ShmQueue models shm_queue/shm_queue.cpp: the segment is a record of its header and its bytes.
-- `enqueue` and `dequeue` are ShmQueue::Enqueue and Dequeue, `enqueue_locked` and `dequeue_locked`
-- what stands between their spin loops. ShmQueue/View relates a segment to the blocks in it
-- (`Holds`), ShmQueue/Fifo is the bounded queue of blocks that it stands for, ShmQueue/Put, Get and
-- Trace compare the two, and ShmQueue/Lock lets several processes call it, one step at a time. A
-- spin loop is one try, which repeats in Lock. The search for the next block in a damaged segment
-- has fuel for two rounds of the ring; no theorem rests on a damaged segment.
--
-- Message models message/message.cpp and the field codec of mq_util/mq_util.cpp: Message/Wire the
-- reads and writes, Message/Pack GetMessagePack of the classes that a client sends (`Request`),
-- Message/Server those that the server sends, Message/Read what logicServer/logicServer.cpp reads
-- of a packet. Numbers are bit patterns; `unsigned short` lengths wrap at 2^16.
--
-- Logic models logicServer/logicServer.cpp: Logic/Queue is MessageQueue, Logic/Topic and
-- Logic/Exchange are Exchange, Logic/Server is the state of LogicServer, whose MessageQueue objects
-- are a heap of numbered queues that the maps and the bindings point into, and Logic/Declare,
-- Publish, Consume and Remove are the handlers On..., SendMultiAck and PushMessage. Logic/Process
-- is ProcessRecvData, Logic/Resend is ReSendMsg with as fuel the number of messages in its list.
-- Logic/Registry is the order of the heap and of the two maps of queues that Logic/Sound and
-- Logic/Cancelled carry through handlers, Logic/Placed where a message stands in a queue that got
-- it. Logic/Lost follows the acknowledgement of a repeated message into the connection server. The
-- handlers take the queues in shared memory as a `Channel`, which Logic/Shared fills with ShmQueue.
-- std::unordered_map is an association list (Base/Maps), std::priority_queue a list in order.
-- PushMessage's inner loop has as fuel the number of messages that wait.
--
-- Connect models connectServer: Connect/Client is the pool of connections of clientConnect.cpp, a
-- pointer to a connection being its number in the array; Connect/Receive cuts a client's bytes into
-- packets, Connect/Events is ProcessEpollData of connectServer.cpp, and Connect/Send the loops of
-- Run over the queue from the logic server. What the system calls return (recv, accept, poll, send)
-- comes with the event or the line that a call is made on. The queue to the logic server is a
-- `Channel` (ShmQueue/Channel), the one from it the list of its packets. Connect/Packets, Cutting,
-- Arrivals and Stream follow a client's bytes, Connect/Pool, Lives and Reuse the connections, and
-- Connect/Accounts, Serving, Delivery and Rounds the packets to the clients. A buffer's loop has
-- its length as fuel, since a packet is never empty; the loop over the queue has fuel for one round
-- per packet, and one for the end. Socket models Sendn and Recvn of mq_util/mq_util.cpp.
--
-- Persist models PersistenceServer/PersistenceServer.cpp: Persist/Disk is the disk and the
-- functions of mq_util/mq_util.cpp for files, Persist/Server the state and the handlers of objects
-- with one file, Persist/Publish and Consume OnPublishMessage and OnConsumeMessage, Persist/Recover
-- InitFileInfo, FindIndexFiles and ProcessIndexFile, Persist/Merge ClearUpFile and MergeFiles, and
-- Persist/Run the body of Run's loop over the packets until its queue is empty. Whether a file can
-- be opened is a parameter; stdio writes are whole, and mmap succeeds. Persist/Paths, Opened,
-- Entries, Known, Steps and Recovery follow published messages to the disk and back,
-- Persist/Consumed and Cleared the removal of files. A file's loop has its length as fuel, since
-- each entry takes bytes.
--
-- Client models client/client.cpp: Client/Receive is the connection with RecvPack, RecvOnePack,
-- WaitServerReply and SendOnePack, Client/Ask the calls that wait for a reply, Client/Producer
-- PuslishMessage, RecvServerAck and ReSendMsg, and Client/Consumer RecvMessage, ConsumeMessage and
-- SendConsumerAck. What poll, recv and send return is an argument, and a call for which it does not
-- suffice still waits. RecvServerAck's loop has the length of the buffer as fuel, since each packet
-- that is not empty takes bytes; ReSendMsg has the number of waiting messages, each of which is new
-- once it was sent. Client/Arriving and Taking follow a packet of the server through RecvOnePack,
-- Client/Delivered a message through ConsumeMessage and Client/Acknowledged and Settled the
-- acknowledgements through RecvServerAck; Client/Bounds is about the sizes of the buffers.
--
-- Not modelled: the client programs and the start of a connection, the recovery of the logic server
-- from files, the main loop of the logic server and the start of the servers, which are sockets,
-- files and time around the parts above; the configuration parser, the timer, the semaphore lock
-- and the logger; the operating system calls of ShmQueue::Init.
pub mod Base
pub mod ShmQueue
pub mod Message
pub mod Logic
pub mod Socket
pub mod Connect
pub mod Persist
pub mod Client

-- ===== src/Console.antt =====
-- src/Werk/Console: messages between console clients and a server over an interprocess queue.
-- The queue is boost's: the server's end is the list of messages that it will deliver, the client's
-- end an answer to each attempt to send.
pub mod Message
pub mod Server
pub mod Client
pub mod Receiver
mod Tests

-- ===== src/Socket.antt =====
-- src/rudp/ReliableSocket.h and src/rudp/ReliableSocket.cpp, a module for each of its threads.
pub mod State
pub mod Segments
pub mod Receiver
pub mod Sender
pub mod Control
pub mod Connect
pub mod Dispatch
pub mod Reading
pub mod Transfer
pub mod Ends
pub mod Rate
pub mod Accept

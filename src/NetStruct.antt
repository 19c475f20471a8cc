-- ===== src/NetStruct.antt =====
-- src/rudp/NetStruct.h, src/rudp/NetStruct.cpp and the queue of src/rudp/Package.h: the containers
-- that the threads of a `ReliableSocket` share.
pub mod Ring
pub mod IdSet
pub mod PackageMap
pub mod AckWaitList
pub mod SegmentParser
pub mod PackageQueueMap

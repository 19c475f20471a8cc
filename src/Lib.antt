-- ===== src/Lib.antt =====
-- SharpVPN's transport: a reliable, encrypted datagram protocol over UDP that carries the packages
-- of a tunnel device.
--
-- The program. `SharpVpn` (src/SharpVpn.cpp) moves packages between a tunnel device and a
-- `ReliableSocket` (src/rudp/ReliableSocket.cpp). The socket runs five threads over shared tables:
-- the segment thread puts queued segments together into encrypted `Data` packages and gives them
-- ids; the sender sends what is pending and puts each package on a wait list; the ack handler takes
-- packages off that list and, until they are acknowledged, has them sent again; the receiver stores
-- `Data` packages, answers for the ack sender, and reads the acknowledgements in `Ack` packages;
-- the ack sender sends the queued ids. `recv_package` hands the stored packages on in order.
--
-- The files.
--   Base            native numbers, lists, arrays as functions, tables by `id % capacity`, bytes
--   Crypto          src/SharpCrypto.cpp over an assumed secret box
--   NetStruct.Ring  `PackageSegmentList`, and `AckQueue` of src/rudp/Package.h
--   NetStruct.IdSet, NetStruct.PackageMap, NetStruct.PackageQueueMap, NetStruct.AckWaitList,
--   NetStruct.SegmentParser
--                   the classes of these names in src/rudp/NetStruct.cpp, one function per method
--   Package         src/rudp/Package.h: the fields, `PackageAck::load`, and the bytes (Formats)
--   PackageParser   src/SharpPackageParser.cpp
--   Vpn             src/SharpVpn.cpp: the clients of a server, routing, the configuration, and the
--                   life of the object (Vpn.Lifecycle)
--   Tunnel          src/SharpTunnel.cpp on Linux (Tunnel), macOS (Tunnel.Mac) and Windows
--                   (Tunnel.Windows)
--   RouteTable      src/RouteTable.cpp on Linux: the rows (RouteTable), their netmasks, the file of
--                   routes (Lines, Chnroute), and the default route (Default); on Windows
--                   (RouteTable.Windows) and on macOS (RouteTable.Mac)
--   TcpFilter       src/rudp/tcp_engine/TcpFilter.cpp
--   Daemon          src/DaemonRuntime.cpp, and the arguments of src/main.cpp (Options)
--   Clock           src/rudp/TimeMarco.h, and the deadline of `ConditionVariable::wait_time`
--   Socket.State    the protocol's fields of `ReliableSocket`
--   Socket.Segments start_thread_segment: packing
--   Socket.Receiver start_thread_receiver (the `Data` and `Ack` cases) and `recv_package`
--   Socket.Sender   start_thread_sender, start_thread_ackhandler, `set_rto`, and the part of
--                   start_thread_segment that gives out ids
--   Socket.Reading  the calls of `recv_package` one after the other
--   Socket.Ends     the threads of both ends that acknowledge, with the network between them
--   Socket.Transfer the threads of both ends together: packing, any delivery, and reading
--   Socket.Dispatch start_thread_receiver's loop, `close_addr`, `stop_all_thread`
--   Socket.Control  pings, the retries of `connect_addr`, `get_free_port`, `send_package`
--   Socket.Connect  the end of `connect_addr`, and `get_ipinfo`
--   Socket.Accept   `accept_connection`, `listen_addr`, the constructors
--   Socket.Rate     `Sleeper`, the pace of the sender
--
-- Correspondence. A class is a record with the fields of the source, a method a function from the
-- record to the record and its result; a null pointer is `none`. Arrays are functions from the
-- index, with the writes of the source. What `new` leaves in memory is a parameter. `delete` is
-- recorded in a list (`freed`) and changes nothing else. `uint64_t` arithmetic wraps at 2 ^ 64
-- where it is not known to stay below; the `int` that `recv_package` keeps an id in is written out
-- (`through_int`). Threads take turns at the granularity of the mutexes, so a history is a list of
-- steps (`Event`); the threads that a step does not mention are parameters of it.
--
-- Bounds and fuel. The capacity of each table is a parameter (100000 in the source). A loop that
-- looks for an id in a table gets as many rounds as the table has slots (`advance`): an id is only
-- found in its own slot, so one round more would meet the first slot again. The loops over a queue
-- get as many rounds as it has entries, as each round takes one. `take_package` needs a round for
-- each id up to `recv_ack_id`, and `settle_waiting` two. Ids of a history are bounded so that they
-- and the capacity stay below 2 ^ 64.
--
-- `get_useable_ip` tries 199 addresses; `htonl` is a parameter that keeps addresses apart.
--
-- A `long` and an `unsigned long` have 64 bits, and `deadline` wraps as they do. `SharpVpn::run` is
-- a function for a run that no signal meets, and in the histories a list of actions (`act`) with
-- `stop` between any two of them. The JSON library is a parameter of the configuration's file.
--
-- What the kernel is asked for (routes, calls on the tunnel device, signals) is a list of requests,
-- in order, and its answers are a parameter, as are the C library's functions on addresses and
-- numbers. The loop of `accept_connection` gets a hundred rounds, as the ports come round after as
-- many.
--
-- Not modelled: `select` and the system calls on sockets, which are inputs of the model; condition
-- variables (a wait is a result of its own, after which the caller calls again); logging, locks;
-- of src/rudp/tcp_engine, which nothing of the program calls, all but `recv` and `get_package`; the
-- copy of ChinaDNS under src/chinadns.
-- libsodium is not part of the repository: `Crypto.Secretbox` states what is used of it, that opening
-- undoes sealing under the same key and nonce and that a box is 16 bytes longer than its message.
pub mod Base
pub mod Crypto
pub mod NetStruct
pub mod Package
pub mod PackageParser
pub mod Daemon
pub mod TcpFilter
pub mod Clock
pub mod RouteTable
pub mod Tunnel
pub mod Socket
pub mod Vpn

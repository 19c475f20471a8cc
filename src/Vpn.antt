-- ===== src/Vpn.antt =====
-- src/SharpVpn.h and src/SharpVpn.cpp: the clients of a server, and its configuration file.
pub mod Maps
pub mod Addresses
pub mod Server
pub mod Lifecycle
pub mod Forward
pub mod Args
mod Tests

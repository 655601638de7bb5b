-- ===== src/Server.antt =====
-- src/reactor/Server.h, Server.cpp, Acceptor.h and Acceptor.cpp: the connections of a server.
pub mod Acceptor
pub mod Defs
pub mod System
pub mod Entries
pub mod Keeps
pub mod Owned
pub mod Twice
mod Tests

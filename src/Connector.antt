-- ===== src/Connector.antt =====
-- src/reactor/ClientConnector.h and ClientConnector.cpp: a client's attempts to connect.
pub mod Defs
pub mod Backoff
pub mod Attempts
mod Tests

-- ===== src/Socket.antt =====
-- src/util/Socket.h and Socket.cpp: byte orders, and the addresses that the wrappers of the system
-- calls build.
pub mod Order
pub mod Address
mod Tests

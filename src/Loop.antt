-- ===== src/Loop.antt =====
-- src/reactor/Eventloop.h and Eventloop.cpp: the tasks of an event loop, its waking, and its
-- descriptors.
pub mod Defs
pub mod Order
pub mod Waking
pub mod Turns
pub mod Descriptors
pub mod Counted
mod Tests
mod CountTests

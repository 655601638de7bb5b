-- ===== src/Timer.antt =====
-- src/reactor/TimeEvent.h and TimeEvent.cpp: the timers of an event loop.
pub mod Queue
pub mod Sorted
pub mod Expired
pub mod Armed
pub mod Renewed
pub mod Members
pub mod Wellformed
pub mod Kept
pub mod Cancelled
pub mod Taken
pub mod Again
pub mod Rounds
pub mod Clock
pub mod Requests
pub mod Undone
mod Tests
mod RequestTests

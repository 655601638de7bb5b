-- ===== src/Buffer.antt =====
-- src/reactor/KBuffer.h and KBuffer.cpp: the application buffer, a chain of blocks.
pub mod Walk
pub mod Ops
pub mod Filling
pub mod Reading
pub mod Invariant
pub mod Placing
pub mod Writing
pub mod Growing
pub mod Consume
pub mod Append
pub mod Scan
pub mod Line
pub mod Fifo
pub mod Faults
pub mod Receive
pub mod Scatter
pub mod Received
pub mod Incoming
pub mod Inflow
mod Tests

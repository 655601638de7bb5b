-- ===== src/Timestamp.antt =====
-- src/util/Timestamp.h and Timestamp.cpp: points in time, in microseconds, and how they are printed.
pub mod Print
pub mod Defs
pub mod Digits
pub mod Printed
mod Tests

-- ===== src/Wheel.antt =====
-- src/reactor/TimeWheel.h: the wheel that closes idle connections.
pub mod Defs
pub mod Current
mod Tests

-- ===== src/Core.antt =====
-- src/core: time stamps, the time-ordered measurement buffer, measurements, and what stands for numbers.
pub mod Double
pub mod Vector
pub mod Time
pub mod Buffer
pub mod Enums
pub mod Gnss
pub mod Sensors
pub mod Numerics
pub mod Diagnostics

-- ===== src/Estimation/Ekf.antt =====
-- src/estimation/src/backends/ekf and src/estimation/src/navigation_system.cpp.
pub mod Layout
pub mod Factory
pub mod Estimator
pub mod Models

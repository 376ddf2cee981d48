-- ===== src/Estimation/Ukf.antt =====
-- src/estimation/src/backends/ukf: what the unscented filter is built from.
pub mod Options
pub mod Factory

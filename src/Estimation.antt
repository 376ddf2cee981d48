-- ===== src/Estimation.antt =====
-- src/estimation: the estimator interface, the measurement queue, the worker-thread pipeline, the filters
-- and what they are built from.
pub mod Measurement
pub mod Config
pub mod Interface
pub mod Queue
pub mod Pipeline
pub mod Ekf
pub mod Ukf

-- ===== src/Estimation/Ekf/Models.antt =====
-- src/estimation/src/backends/ekf/measurement_models: `Apply` of the models of height, velocity, field and
-- loosely coupled GNSS. `s` is what `Apply` takes by reference.
pub mod Shared
pub mod Height
pub mod Velocity
pub mod Field
pub mod Position
pub mod Dispatch
pub mod Proper

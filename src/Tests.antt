-- ===== src/Tests.antt =====
-- Runs of the model on concrete inputs, and the theorems at inputs that meet their hypotheses.
mod Values
mod Json
mod Config
mod Core
mod Estimation
mod Io
mod App
mod Ekf
mod Text
mod Filter

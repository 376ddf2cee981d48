-- ===== src/App/Config/Sensors.antt =====
-- The settings of the sensors as JSON.
pub mod ReadGnss
pub mod ReadField
pub mod ReadRange
pub mod ReadMotion
pub mod Write
pub mod RoundTrip

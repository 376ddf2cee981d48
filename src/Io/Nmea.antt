-- ===== src/Io/Nmea.antt =====
-- src/io/include/falconguide/io/nmea.
pub mod Sentence
pub mod Numbers
pub mod Gga
pub mod Vtg
pub mod Rmc

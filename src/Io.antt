-- ===== src/Io.antt =====
-- src/io: NMEA sentences, readers, and CSV files.
pub mod Nmea
pub mod Reader
pub mod Csv

-- ===== src/Importing.antt =====
-- ml/import_intel_lab_dataset.py: which rows of the file are imported; and the percentiles that it and
-- ml/import_anomliot_dataset.py make a sensor's range of.
pub mod Scan
pub mod EarlyStop
pub mod Percentiles
pub use Scan.*

-- ===== src/Record.antt =====
-- record/: the parts of the record manager.
pub mod Bitmap
pub mod Layout
pub mod File
pub mod Tests

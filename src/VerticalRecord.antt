-- ===== src/VerticalRecord.antt =====
-- src/core/VerticalRecord, the pure parts of the vertical recording: its folder, its file names, its
-- encoder and its settings.
pub mod Folder
pub mod Names
pub mod Encoder
pub mod Settings

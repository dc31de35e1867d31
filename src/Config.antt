-- ===== src/Config.antt =====
-- src/core/ConfigStore: the file of the endpoints, and the thread that saves them.
pub mod File
pub mod Saver

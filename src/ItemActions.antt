-- ===== src/ItemActions.antt =====
-- src/core/ItemActions and LockPolicy: the names of new items and the
-- rules of the lock.
pub mod Names
pub mod Copy
pub mod Lock

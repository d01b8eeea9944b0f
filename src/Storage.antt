-- ===== src/Storage.antt =====
-- src/storage and include/storage: data records and the in-memory store.
pub mod Record
pub mod DataStore
pub mod Tests

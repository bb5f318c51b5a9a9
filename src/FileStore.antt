-- ===== src/FileStore.antt =====
-- pkg/filestore/filestore.go: storage keys, and the store on a local disk.
pub mod Keys
pub mod Confined
pub mod Slashes
pub mod Local
pub mod Stored
mod Tests

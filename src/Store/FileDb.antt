-- ===== src/Store/FileDb.antt =====
-- internal/store/filedb/repository.go: the state of the panel in memory and in one JSON file. Each
-- method runs under the repository's lock, so a method is one step from a repository to the next;
-- what a method changed in memory stays changed when the write of the file fails.
pub mod Snapshot
pub mod Methods
pub mod Indexes
pub mod Rebuild
pub mod Calls
pub mod Invariant
pub mod Accounts
pub mod Directory
pub mod Durability
pub mod Lists
pub mod Tests

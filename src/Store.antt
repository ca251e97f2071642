-- ===== src/Store.antt =====
-- store/: the storage port and its adapters.
pub mod Port
pub mod Contents
pub mod Memory
pub mod Badger

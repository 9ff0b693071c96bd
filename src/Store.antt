-- ===== src/Store.antt =====
-- internal/app/store.go: the store's methods, over the tables of `Tables`.
pub mod Tables
pub mod Methods
pub mod Invariant
pub mod Saving
pub mod Queue
pub mod Open
pub mod Migration
pub mod Law
pub mod Lifecycle

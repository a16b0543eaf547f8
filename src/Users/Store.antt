-- ===== src/Users/Store.antt =====
-- The identity store, capsules/capsule-users/src/store.rs.
pub mod Keys
pub mod Records
pub mod Accounts
pub mod Links
pub mod Page
pub mod Contexts

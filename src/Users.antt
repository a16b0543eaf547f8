-- ===== src/Users.antt =====
-- capsules/capsule-users: the identities of users.
pub mod Time
pub mod Types
pub mod Backend
pub mod Store
pub mod Owners
pub mod Requests
pub mod Responses
pub mod Calm
pub mod Capsule
pub mod Directory
pub mod Overlays
pub mod Names
mod Fixtures
mod Tests

-- ===== src/Hooks.antt =====
-- capsules/capsule-hook-bridge: lifecycle events and host hooks on the hook bus.
pub mod Mapping
pub mod Merge
pub mod Bus
pub mod Collect
pub mod Dispatch
pub mod Publishes
pub mod Oracle
pub mod Bridge
pub mod Termination
mod Tests

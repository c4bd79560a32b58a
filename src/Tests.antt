-- ===== src/Tests.antt =====
-- Concrete services, databases and inputs, and the theorems at them.
pub mod Data
pub mod Requests
pub mod Bans
pub mod Rooms
pub mod History
pub mod Messages
pub mod Membership
pub mod RateLimit
pub mod Outbox
pub mod Sessions
pub mod Accounts
pub mod Notifications
pub mod Recipients
pub mod Presence

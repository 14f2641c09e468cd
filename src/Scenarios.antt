-- ===== src/Scenarios.antt =====
-- The theorems at concrete inputs.
pub mod Accounts
pub mod Registrations
pub mod Revocations
pub mod Samples
pub mod Pushes
pub mod Pulls
pub mod Uploads
pub mod Background
pub mod Limits
pub mod Clients
pub mod Merges
pub mod Vaults
pub mod Rounds
pub mod Groups

-- ===== src/Client.antt =====
-- client/core: the client's side of the synchronisation.
pub mod Cursor
pub mod Backoff
pub mod Keys
pub mod Sealing
pub mod Vault
pub mod Local
pub mod Engine
pub mod Outbox
pub mod Actions
pub mod Session
pub mod Served
pub mod Sharing
pub mod Rekey
pub mod Round

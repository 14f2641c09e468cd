-- ===== src/Crypto.antt =====
-- internal/crypto: the encoding of what is authenticated.
pub mod LengthPrefix
pub mod Sm4Gcm

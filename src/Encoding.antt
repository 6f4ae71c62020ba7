-- ===== src/Encoding.antt =====
-- src/usersig.cc: base64, SHA-256 and HMAC, JSON escaping, and the UserSig built from them.
pub mod Base64
pub mod Sha256
pub mod UserSig
mod Tests

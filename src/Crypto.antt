-- ===== src/Crypto.antt =====
-- src/PowerAuth/crypto: the wrappers round OpenSSL and the padding.
pub mod Padding
pub mod Aes
pub mod Digest
pub mod Ecc
pub mod Prng

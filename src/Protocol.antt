-- ===== src/Protocol.antt =====
-- src/PowerAuth/protocol: constants, data types, validation, serialization and the protocol's
-- cryptographic steps.
pub mod Constants
pub mod Types
pub mod Validation
pub mod Persistence
pub mod Derivation
pub mod Locking
pub mod Signature
pub mod Activation

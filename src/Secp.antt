-- ===== src/Secp.antt =====
-- The C library under core/vm/evm/crypto/secp256k1/libsecp256k1/src that signatures rest on.
pub mod Field
pub mod Field32
pub mod Scalar
pub mod Scalar32
pub mod Residues
pub mod Ecdsa
pub mod Hash

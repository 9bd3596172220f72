-- ===== src/Crypto.antt =====
-- core/pkg/crypto: the key derivations, the Double Ratchet, X3DH and the session store.
pub mod Primitives
pub mod Kdf
pub mod Ratchet
pub mod X3dh
pub mod Session

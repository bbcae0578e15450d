-- ===== src/Examples.antt =====
-- Test vectors, and the theorems at concrete inputs.
pub mod Structs
pub mod Messages
pub mod Crypto
pub mod Sdl
pub mod Vault
pub mod Auth

-- ===== src/Crypto.antt =====
-- src/nagus/crypto.py: hashes for the login, and the cipher of every connection.
pub mod Rc4
pub mod Sha
pub mod Credentials

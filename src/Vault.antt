-- ===== src/Vault.antt =====
-- The vault: src/nagus/state.py.
pub mod Enums
pub mod NodeData
pub mod Table
pub mod Texts
pub mod Database
pub mod Server
pub mod Nodes
pub mod Refs
pub mod Ages
pub mod Avatars
pub mod ObjectStates
pub mod Setup
pub mod Reachable

-- ===== src/Messages.antt =====
-- src/nagus/pl_messages.py: the messages that clients send over the game server.
pub mod Enums
pub mod Animation
pub mod Header
pub mod Brain
pub mod Events
pub mod Simple
pub mod Classes
pub mod Tree

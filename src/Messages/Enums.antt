-- ===== src/Messages/Enums.antt =====
-- The `IntEnum` classes of src/nagus/pl_messages.py.
pub mod Avatar
pub mod General

-- ===== src/Structs.antt =====
-- src/nagus/structs.py: the data types that all parts of the protocol share, and their binary forms.
pub mod SafeString
pub mod WideString
pub mod BitVector
pub mod Uoid
pub mod SequenceNumber
pub mod Time

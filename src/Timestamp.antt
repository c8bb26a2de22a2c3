-- ===== src/Timestamp.antt =====
-- include/Timestamp.h and source/Timestamp.cpp. Format: the functors that print a time; Atoms: the
-- parts of a time; Stamps: the objects that a statement logs.
pub mod Atoms
pub mod Stream
pub mod Format
pub mod Stamps
pub mod Digits
pub mod Iso
pub mod Laws
pub mod Tests

-- ===== src/Journal.antt =====
-- The journal of src/tesera/journal.py.
pub mod Idem
pub mod Tail
pub mod Append

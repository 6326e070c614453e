-- ===== src/Memory.antt =====
-- Institutional memory (src/collegium/memory.py over the tables of db/migrations): the tables that
-- the modelled components read and write, and one function for each statement. Nodes of all kinds
-- share one supply of ids. A confidence or a reliability is in thousandths, as the database rounds it.
mod Tables
mod Reading
mod Writing
mod Recording
pub use Tables.*
unfoldable pub use Reading.*
unfoldable pub use Writing.*
unfoldable pub use Recording.*

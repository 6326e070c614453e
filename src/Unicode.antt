-- ===== src/Unicode.antt =====
-- The tables of Unicode that Python's str uses, as far as the program does.
pub mod Runs
pub mod Alnum
pub mod Lower

-- ===== src/Io.antt =====
-- Keeping buffered and direct input and output on a file apart: mynfs/io.c.
pub mod Rwsem
pub mod Steps
pub mod Stepped
pub mod Exclusion
pub mod Concrete
mod Examples

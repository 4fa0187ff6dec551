-- ===== src/Attr.antt =====
-- The attributes of an inode (mynfs/inode.c).
pub mod Gaps
pub mod Counting
pub mod Loop
pub mod Exact
pub mod Recorded
pub mod Compare
pub mod Newer
mod Examples

-- ===== src/Xattr.antt =====
-- The cache of the user extended attributes of a file (mynfs/nfs42xattr.c).
pub mod Entry
pub mod Table
pub mod Inode
pub mod Chain
pub mod Buckets
pub mod Linked
pub mod Found
pub mod Acts
pub mod Refinement
pub mod Counting
pub mod Balance
pub mod Recycle
pub mod Shrink
pub mod Shrunk
mod Examples

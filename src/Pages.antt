-- ===== src/Pages.antt =====
-- Groups of the requests of a page (mynfs/pagelist.c).
pub mod Request
pub mod Group
pub mod Ring
pub mod Sync
pub mod Barrier
pub mod Extended
pub mod Joined
pub mod Freed
pub mod Held
pub mod Released
pub mod Life
mod Examples

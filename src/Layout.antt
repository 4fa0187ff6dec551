-- ===== src/Layout.antt =====
-- pNFS layouts: byte ranges, the layout stateid and the list of segments (mynfs/pnfs.c, mynfs/pnfs.h).
pub mod Range
pub mod Coverage
pub mod Header
pub mod Stateid
pub mod Recall
pub mod Recalled
pub mod Purge
pub mod Returned
pub mod Insert
pub mod Order
pub mod Find
pub mod Draining
pub mod Drained
mod Examples

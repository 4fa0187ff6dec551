-- ===== src/Open.antt =====
-- The open state of a file: how many opens there are of each kind, which of them the server knows,
-- and the stateid (mynfs/nfs4proc.c, mynfs/nfs4state.c, mynfs/nfs4_fs.h).
pub mod Stateid
pub mod State
pub mod Update
pub mod Close
pub mod Counts
pub mod Opened
pub mod Round
pub mod Order
pub mod Refresh
mod Examples

-- ===== src/Sequence.antt =====
-- The SEQUENCE protocol of the NFSv4.1 client: how a task gets a slot, and what the reply does to
-- the slot's sequence number (mynfs/nfs4proc.c).
pub mod Reply
pub mod Task
pub mod Numbers
pub mod Done
pub mod Setup
pub mod Recovery
mod Examples

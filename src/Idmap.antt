-- ===== src/Idmap.antt =====
-- Names of users and groups (mynfs/nfs4idmap.c).
pub mod Names
pub mod Numbers
mod Decimal
mod Examples

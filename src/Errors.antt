-- ===== src/Errors.antt =====
-- How an NFSv4 call goes on after an error (mynfs/nfs4proc.c).
pub mod Codes
pub mod Delay
pub mod Exception
pub mod Handle
pub mod Switch
pub mod Settled
pub mod Async
pub mod Backoff
pub mod Softerr
mod Examples

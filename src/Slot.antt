-- ===== src/Slot.antt =====
-- The NFSv4.1 session slot table: mynfs/nfs4session.c and the slot types of mynfs/nfs4session.h.
pub mod Kernel
pub mod Table
pub mod Walk
pub mod Bitmap
pub mod Invariant
pub mod Alloc
pub mod Wake
pub mod Wakeups
pub mod Resize
pub mod Sizes
pub mod Realloc
pub mod Derivative
pub mod Concrete
pub mod Session
pub mod SetUp
pub mod Small
mod Examples

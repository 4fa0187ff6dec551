-- ===== src/Callback.antt =====
-- The back channel: mynfs/callback_proc.c.
pub mod Sequence
pub mod Lookup
pub mod Once
mod Examples

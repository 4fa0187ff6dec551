-- ===== src/Errors/Delay.antt =====
-- Waiting before a retry: `nfs4_update_delay` and its callers, and the limit on such retries
-- (mynfs/nfs4proc.c). A timeout is a number of ticks, `hz` to the second.
use mynfs.Base.{ℕ, ◌+◌, ◌*◌, ◌/◌, ◌%◌, ◌^◌, ltb, leb, ◌==◌, if◌then◌else◌, Bool, Option, none, some}
use mynfs.Errors.Codes.{Code, success, fail, eintr, erestartsys, eagain}

module _ (hz : ℕ) where
  -- NFS4_POLL_RETRY_MIN, NFS4_POLL_RETRY_MAX
  abbrev pub retry_min : ℕ
  retry_min = hz / 10

  abbrev pub retry_max : ℕ
  retry_max = 15 * hz

  abbrev pub clamp : ℕ → ℕ
  clamp timeout =
      let t = if timeout == 0 then retry_min else timeout in
      if ltb retry_max t then retry_max else t

  -- The delay, and the timeout afterwards.
  unfoldable pub update_delay : Option ℕ → ℕ × Option ℕ
  update_delay none = (retry_max, none)
  update_delay (some timeout) = (clamp timeout, some (clamp timeout * 2))

-- What a sleep was ended by.
pub data Signal : Type 0 where
  no_signal signal fatal_signal : Signal

unfoldable pub delay_killable : Signal → Code
delay_killable fatal_signal = fail eintr
delay_killable _ = success 0

unfoldable pub delay_interruptible : Signal → Code
delay_interruptible no_signal = success 0
delay_interruptible signal = fail erestartsys
delay_interruptible fatal_signal = fail eintr

unfoldable pub nfs4_delay : Bool → Signal → Code
unfolding delay_killable delay_interruptible
nfs4_delay interruptible s = if interruptible then delay_interruptible s else delay_killable s

-- The mount's NFS_MOUNT_SOFTERR, and the limit `mynfs_delay_retrans`, where it is not negative.
pub record Limit : Type 0 where
  pub softerr : Bool
  pub delay_retrans : Option ℕ

abbrev pub limit_of : Limit → Option ℕ
limit_of l = if l.softerr then l.delay_retrans else none

-- The answer, and the count afterwards, an `unsigned short`.
abbrev pub should_retrans_at : Option ℕ → ℕ → Code × ℕ
should_retrans_at none retrans = (success 0, retrans)
should_retrans_at (some limit) retrans =
    let next = (retrans + 1) % 2 ^ 16 in
    if leb limit retrans then (fail eagain, next) else (success 0, next)

unfoldable pub exception_should_retrans : Limit → ℕ → Code × ℕ
exception_should_retrans l retrans = should_retrans_at (limit_of l) retrans

-- ===== src/Slot/Derivative.antt =====
-- The damped difference by which `nfs41_is_outlier_target_slotid` judges a new target.
use mynfs.Base.{ℕ, ◌+◌, ◌-◌, ◌/◌, ◌^◌, ◌≤◌, ◌<◌, ◌≡◌, arith}
use mynfs.Slot.Resize.{derivative_target_slotid}

-- For slot numbers a rise by k gives (k + 1) / 2, and a fall by k > 0 gives -((k + 2) / 2) as an s32:
-- the shift rounds an odd rise up, and a fall always away from zero.
pub derivative_target_slotid-half :
    (s1 s2 : ℕ)
    → s1 < 2 ^ 30
    → s2 < 2 ^ 30
    → (s2 ≤ s1 → derivative_target_slotid s1 s2 ≡ (s1 - s2 + 1) / 2)
      × (s1 < s2 → derivative_target_slotid s1 s2 ≡ 2 ^ 32 - (s2 - s1 + 2) / 2)
unfolding derivative_target_slotid
derivative_target_slotid-half s1 s2 h1 h2 = (λ le. ground arith, λ lt. ground arith)

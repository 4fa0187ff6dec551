-- ===== src/Errors/Backoff.antt =====
-- The delays grow exponentially up to a limit, and under `softerr` the retries end (mynfs/nfs4proc.c).
use mynfs.Base.{ℕ, zero, suc, ◌*◌, ◌^◌, ◌≤◌, min, ◌≡◌, sym, ap, ◌∙◌, some, arith}
use mynfs.Errors.Delay.{update_delay, clamp, retry_min, retry_max}
use mynfs.Errors.Exception.{StateidTypes, Exception}
use mynfs.Errors.Handle.{next_timeout}
use native.Mathlib.Nat.{mul_assoc}
use native.Mathlib.Numerals.{unary_clauses}

module _ (types : StateidTypes) (hz : ℕ) where
  -- The exception after a number of delays.
  abbrev pub after_delays : ℕ → Exception → Exception
  after_delays zero x = x
  after_delays (suc k) x = next_timeout types hz (after_delays k x)

  clamp_double :
      (a : ℕ) → 10 ≤ hz → 1 ≤ a → clamp hz (min a (retry_max hz) * 2) ≡ min (a * 2) (retry_max hz)
  clamp_double a h k = ground arith

  pow_suc : (m k : ℕ) → m * 2 ^ suc k ≡ m * 2 ^ k * 2
  pow_suc m k =
      let twice : 2 ^ suc k ≡ 2 ^ k * 2 = simp unary_clauses (omega arith) in
      ap (λ p. m * p) twice ∙ sym (mul_assoc m (2 ^ k) 2)

  pow_pos : (m k : ℕ) → 1 ≤ m → 1 ≤ m * 2 ^ k
  pow_pos m zero h = omega arith
  pow_pos m (suc k) h = omega (arith, pow_pos m k h, pow_suc m k)

  -- From a fresh exception on, with at least ten ticks to the second, the delay after k others is
  -- the smallest one times 2 to the k, and never more than the largest one.
  pub update_delay-after_delays :
      (k : ℕ) (x : Exception)
      → x.timeout ≡ 0
      → 10 ≤ hz
      → (update_delay hz (some (after_delays k x).timeout)).0
        ≡ min (retry_min hz * 2 ^ k) (retry_max hz)
  unfolding update_delay
  update_delay-after_delays zero x e h = first_delay x.timeout e
    where
      first_delay : (t : ℕ) → t ≡ 0 → clamp hz t ≡ min (retry_min hz * 1) (retry_max hz)
      first_delay t e = ground arith
  update_delay-after_delays (suc k) x e h =
      ap (λ t. clamp hz (t * 2)) (update_delay-after_delays k x e h)
      ∙ clamp_double (retry_min hz * 2 ^ k) h (pow_pos (retry_min hz) k (omega arith))
      ∙ ap (λ p. min p (retry_max hz)) (sym (pow_suc (retry_min hz) k))

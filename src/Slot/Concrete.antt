-- ===== src/Slot/Concrete.antt =====
-- A bitmap search and a wait queue that meet their descriptions.
use mathlib.Core.List.{append-nil}
use mynfs.Base.{
  ℕ, zero, suc, ◌≤◌, ◌<◌, ◌≡◌, refl, sym, ltb, if◌then◌else◌, Bool, true, false, Option, none, some,
  List, [], ◌∷◌, ◌++◌, arith,
}
use mynfs.Slot.Kernel.{Bits, BitSearch, WaitQueue, Task}

unfoldable pub first_zero : Bits → ℕ → ℕ
first_zero b zero = 0
first_zero b (suc n) = let r = first_zero b n in if ltb r n then r else if b n then suc n else n

unfoldable pub last_one : Bits → ℕ → ℕ
last_one b zero = 0
last_one b (suc n) = let r = last_one b n in if b n then n else if ltb r n then r else suc n

pub first_zero_bound : (b : Bits) (n : ℕ) → first_zero b n ≤ n
unfolding first_zero
first_zero_bound b zero = omega arith
first_zero_bound b (suc n) = ground (arith, first_zero_bound b n)

pub first_zero_hit : (b : Bits) (n : ℕ) → first_zero b n < n → b (first_zero b n) ≡ false
unfolding first_zero
first_zero_hit b zero h = absurd (omega arith)
first_zero_hit b (suc n) h = ground (arith, first_zero_hit b n)

pub first_zero_set : (b : Bits) (n i : ℕ) → i < first_zero b n → b i ≡ true
unfolding first_zero
first_zero_set b zero i h = absurd (omega arith)
first_zero_set b (suc n) i h = ground (arith, first_zero_set b n i, first_zero_bound b n)

pub last_one_bound : (b : Bits) (n : ℕ) → last_one b n ≤ n
unfolding last_one
last_one_bound b zero = omega arith
last_one_bound b (suc n) = ground (arith, last_one_bound b n)

pub last_one_hit : (b : Bits) (n : ℕ) → last_one b n < n → b (last_one b n) ≡ true
unfolding last_one
last_one_hit b zero h = absurd (omega arith)
last_one_hit b (suc n) h = ground (arith, last_one_hit b n)

pub last_one_above : (b : Bits) (n i : ℕ) → last_one b n < i → i < n → b i ≡ false
unfolding last_one
last_one_above b zero i h k = absurd (omega arith)
last_one_above b (suc n) i h k = ground (arith, last_one_above b n i)

pub last_one_missing : (b : Bits) (n i : ℕ) → last_one b n ≡ n → i < n → b i ≡ false
unfolding last_one
last_one_missing b zero i h k = absurd (omega arith)
last_one_missing b (suc n) i h k = ground (arith, last_one_missing b n i, last_one_bound b n)

abbrev pub bit_search : BitSearch
bit_search = record {
  find_first_zero_bit = first_zero;
  find_last_bit = last_one;
  first_zero_clear = first_zero_hit;
  first_zero_below = first_zero_set;
  first_zero_le = first_zero_bound;
  last_set = last_one_hit;
  last_above = last_one_above;
  last_none = last_one_missing;
  last_le = last_one_bound;
}

-- The queue serves its head.
unfoldable pub wake_head : List Task → (Task → Bool) → Option (Task × List Task)
wake_head [] func = none
wake_head (t ∷ q) func = if func t then some (t, q) else none

pub wake_head_accepted :
    (q : List Task) (func : Task → Bool) (t : Task) (r : List Task)
    → wake_head q func ≡ some (t, r)
    → func t ≡ true
unfolding wake_head
wake_head_accepted [] func t r h = absurd (cc)
wake_head_accepted (x ∷ q) func t r h = ground arith

pub wake_head_leaves :
    (q : List Task) (func : Task → Bool) (t : Task) (r : List Task)
    → wake_head q func ≡ some (t, r)
    → (xs ys : List Task) × (q ≡ xs ++ t ∷ ys) × (r ≡ xs ++ ys)
unfolding wake_head
wake_head_leaves [] func t r h = absurd (cc)
wake_head_leaves (x ∷ q) func t r h = ([], q, ground arith, ground arith)

-- A new task waits at the end.
abbrev pub sleep_last : List Task → Task → List Task
sleep_last q t = q ++ t ∷ []

pub sleep_last_within :
    (q : List Task) (t : Task)
    → (xs ys : List Task) × (q ≡ xs ++ ys) × (sleep_last q t ≡ xs ++ t ∷ ys)
sleep_last_within q t = (q, [], sym (append-nil q), refl)

abbrev pub wait_queue : WaitQueue
wait_queue = record {
  rpc_sleep_on = sleep_last;
  sleeps_within = sleep_last_within;
  rpc_wake_up_first = wake_head;
  woken_accepted = wake_head_accepted;
  woken_leaves = wake_head_leaves;
}

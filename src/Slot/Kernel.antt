-- ===== src/Slot/Kernel.antt =====
-- What the slot table takes from the kernel: searches of a bitmap, and the RPC wait queue. Both are
-- parameters, with the behaviour that the kernel documents for them.
use mynfs.Base.{
  ℕ, ◌≤◌, ◌<◌, ◌≡◌, ◌==◌, if◌then◌else◌, Bool, true, false, Option, some, List, ◌∷◌, ◌++◌,
}

-- The content of an array of words, bit by bit.
abbrev pub Bits : Type 0
Bits = ℕ → Bool

-- `__set_bit` and `__clear_bit`
abbrev pub set_bit : ℕ → Bits → Bits
set_bit i b j = if i == j then true else b j

abbrev pub clear_bit : ℕ → Bits → Bits
clear_bit i b j = if i == j then false else b j

-- `find_first_zero_bit(b, size)` and `find_last_bit(b, size)`: `size` where there is none.
pub record BitSearch : Type 0 where
  pub find_first_zero_bit : Bits → ℕ → ℕ
  pub find_last_bit : Bits → ℕ → ℕ
  pub first_zero_clear :
      (b : Bits) (n : ℕ) → find_first_zero_bit b n < n → b (find_first_zero_bit b n) ≡ false
  pub first_zero_below : (b : Bits) (n i : ℕ) → i < find_first_zero_bit b n → b i ≡ true
  pub first_zero_le : (b : Bits) (n : ℕ) → find_first_zero_bit b n ≤ n
  pub last_set : (b : Bits) (n : ℕ) → find_last_bit b n < n → b (find_last_bit b n) ≡ true
  pub last_above : (b : Bits) (n i : ℕ) → find_last_bit b n < i → i < n → b i ≡ false
  pub last_none : (b : Bits) (n i : ℕ) → find_last_bit b n ≡ n → i < n → b i ≡ false
  pub last_le : (b : Bits) (n : ℕ) → find_last_bit b n ≤ n

-- What `nfs41_assign_slot` reads of a waiting `rpc_task` and its sequence arguments.
pub record Task : Type 0 where
  pub task_id : ℕ
  pub sa_privileged : Bool

-- `rpc_sleep_on` and its kin put a task somewhere into the queue, by its priority.
-- `rpc_wake_up_first(queue, func, data)`: the task at the head of the queue is offered to `func`;
-- where `func` accepts, the task leaves the queue and is woken, and the others keep their order.
pub record WaitQueue : Type 0 where
  pub rpc_sleep_on : List Task → Task → List Task
  pub sleeps_within :
      (q : List Task) (t : Task)
      → (xs ys : List Task) × (q ≡ xs ++ ys) × (rpc_sleep_on q t ≡ xs ++ t ∷ ys)
  pub rpc_wake_up_first : List Task → (Task → Bool) → Option (Task × List Task)
  pub woken_accepted :
      (q : List Task) (func : Task → Bool) (t : Task) (r : List Task)
      → rpc_wake_up_first q func ≡ some (t, r)
      → func t ≡ true
  pub woken_leaves :
      (q : List Task) (func : Task → Bool) (t : Task) (r : List Task)
      → rpc_wake_up_first q func ≡ some (t, r)
      → (xs ys : List Task) × (q ≡ xs ++ t ∷ ys) × (r ≡ xs ++ ys)

-- ===== src/Io/Rwsem.antt =====
-- What the file lock is taken to be: a reader-writer semaphore of the kernel. `none` means that the
-- caller has to wait.
use mynfs.Base.{ℕ, ◌≡◌, ◌≢◌, ◌==◌, if◌then◌else◌, Bool, true, false, Option, some}

-- `shared r i` and `exclusive r i` are whether the thread `i` holds the lock in that way. Nobody holds
-- it beside a thread that holds it exclusively.
pub record Rwsem (R : Type 0) : Type 0 where
  pub shared : R → ℕ → Bool
  pub exclusive : R → ℕ → Bool
  pub excluded :
      (r : R) (i j : ℕ)
      → exclusive r i ≡ true
      → i ≢ j
      → (shared r j ≡ false) × (exclusive r j ≡ false)
  pub down_read : R → ℕ → Option R
  pub up_read : R → ℕ → Option R
  pub down_write : R → ℕ → Option R
  pub up_write : R → ℕ → Option R
  pub downgrade_write : R → ℕ → Option R
  pub read_locked :
      (r r' : R) (i j : ℕ)
      → down_read r i ≡ some r'
      → (shared r' j ≡ (if i == j then true else shared r j)) × (exclusive r' j ≡ exclusive r j)
  pub read_unlocked :
      (r r' : R) (i j : ℕ)
      → up_read r i ≡ some r'
      → (shared r' j ≡ (if i == j then false else shared r j)) × (exclusive r' j ≡ exclusive r j)
  pub write_locked :
      (r r' : R) (i j : ℕ)
      → down_write r i ≡ some r'
      → (shared r' j ≡ shared r j) × (exclusive r' j ≡ (if i == j then true else exclusive r j))
  pub write_unlocked :
      (r r' : R) (i j : ℕ)
      → up_write r i ≡ some r'
      → (shared r' j ≡ shared r j) × (exclusive r' j ≡ (if i == j then false else exclusive r j))
  pub downgraded :
      (r r' : R) (i j : ℕ)
      → downgrade_write r i ≡ some r'
      → (shared r' j ≡ (if i == j then true else shared r j))
        × (exclusive r' j ≡ (if i == j then false else exclusive r j))

-- ===== src/Io/Concrete.antt =====
-- A lock that meets the description: a list of readers, or a writer.
use mynfs.Base.{
  ℕ, ◌≡◌, ◌≢◌, ◌==◌, if◌then◌else◌, Bool, true, false, Option, none, some, List, [], ◌∷◌, arith,
}
use mynfs.Io.Rwsem.{Rwsem}

pub data Lock : Type 0 where
  readers : List ℕ → Lock
  writer : ℕ → Lock

abbrev contains : List ℕ → ℕ → Bool
contains [] j = false
contains (x ∷ xs) j = if x == j then true else contains xs j

abbrev without : List ℕ → ℕ → List ℕ
without [] i = []
without (x ∷ xs) i = if x == i then without xs i else x ∷ without xs i

abbrev pub reads : Lock → ℕ → Bool
reads (readers xs) j = contains xs j
reads (writer k) j = false

abbrev pub writes : Lock → ℕ → Bool
writes (readers xs) j = false
writes (writer k) j = k == j

abbrev pub read_lock : Lock → ℕ → Option Lock
read_lock (readers xs) i = some (readers (i ∷ xs))
read_lock (writer k) i = none

abbrev pub read_unlock : Lock → ℕ → Option Lock
read_unlock (readers xs) i = some (readers (without xs i))
read_unlock (writer k) i = none

abbrev pub write_lock : Lock → ℕ → Option Lock
write_lock (readers []) i = some (writer i)
write_lock (readers (x ∷ xs)) i = none
write_lock (writer k) i = none

abbrev pub write_unlock : Lock → ℕ → Option Lock
write_unlock (readers xs) i = none
write_unlock (writer k) i = if k == i then some (readers []) else none

abbrev pub downgrade : Lock → ℕ → Option Lock
downgrade (readers xs) i = none
downgrade (writer k) i = if k == i then some (readers (i ∷ [])) else none

contains-without :
    (xs : List ℕ) (i j : ℕ) → contains (without xs i) j ≡ (if i == j then false else contains xs j)
contains-without [] i j = ground arith
contains-without (x ∷ xs) i j = ground (arith, contains-without xs i j)

pub writer_alone :
    (r : Lock) (i j : ℕ) → writes r i ≡ true → i ≢ j → (reads r j ≡ false) × (writes r j ≡ false)
writer_alone (readers xs) i j e h = absurd (cc)
writer_alone (writer k) i j e h = ground arith

pub read_lock_lem :
    (r r' : Lock) (i j : ℕ)
    → read_lock r i ≡ some r'
    → (reads r' j ≡ (if i == j then true else reads r j)) × (writes r' j ≡ writes r j)
read_lock_lem (readers xs) r' i j e = ground arith
read_lock_lem (writer k) r' i j e = absurd (cc)

pub read_unlock_lem :
    (r r' : Lock) (i j : ℕ)
    → read_unlock r i ≡ some r'
    → (reads r' j ≡ (if i == j then false else reads r j)) × (writes r' j ≡ writes r j)
read_unlock_lem (readers xs) r' i j e = ground (arith, contains-without xs i j)
read_unlock_lem (writer k) r' i j e = absurd (cc)

pub write_lock_lem :
    (r r' : Lock) (i j : ℕ)
    → write_lock r i ≡ some r'
    → (reads r' j ≡ reads r j) × (writes r' j ≡ (if i == j then true else writes r j))
write_lock_lem (readers []) r' i j e = ground arith
write_lock_lem (readers (x ∷ xs)) r' i j e = absurd (cc)
write_lock_lem (writer k) r' i j e = absurd (cc)

pub write_unlock_lem :
    (r r' : Lock) (i j : ℕ)
    → write_unlock r i ≡ some r'
    → (reads r' j ≡ reads r j) × (writes r' j ≡ (if i == j then false else writes r j))
write_unlock_lem (readers xs) r' i j e = absurd (cc)
write_unlock_lem (writer k) r' i j e = ground arith

pub downgrade_lem :
    (r r' : Lock) (i j : ℕ)
    → downgrade r i ≡ some r'
    → (reads r' j ≡ (if i == j then true else reads r j))
      × (writes r' j ≡ (if i == j then false else writes r j))
downgrade_lem (readers xs) r' i j e = absurd (cc)
downgrade_lem (writer k) r' i j e = ground arith

abbrev pub rwsem : Rwsem Lock
rwsem = record {
  shared = reads;
  exclusive = writes;
  excluded = writer_alone;
  down_read = read_lock;
  up_read = read_unlock;
  down_write = write_lock;
  up_write = write_unlock;
  downgrade_write = downgrade;
  read_locked = read_lock_lem;
  read_unlocked = read_unlock_lem;
  write_locked = write_lock_lem;
  write_unlocked = write_unlock_lem;
  downgraded = downgrade_lem;
}

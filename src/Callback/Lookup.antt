-- ===== src/Callback/Lookup.antt =====
-- Waiting for referring calls, and looking a slot up: what CB_SEQUENCE meets on its way.
use mynfs.Base.{
  ℕ, zero, suc, ◌+◌, ◌^◌, ◌≤◌, ◌<◌, ◌≡◌, refl, leb, Bool, false, List, [], ◌∷◌, ◌++◌, modify,
  length, length-modify, Bool-cases, inl, inr, ◌⊎◌, add32, is_neg32, arith,
}
use mynfs.Slot.Walk.{IsListed, created, find_slot-created, grow, created_for}
use mynfs.Slot.Invariant.{IsWf, created-IsWf}
use mynfs.Slot.Alloc.{created_cases, created-ok}
use mynfs.Slot.Table.{
  Slot, SlotTable, Found, Errno, ok, err, too_big, no_mem, lookup_slot, lock_slot, try_to_lock_slot,
  seq_nr_at, slot_nr_at,
}
use mynfs.Callback.Sequence.{ReferringCallList, wait_refcalls, wait_rclists, referring_call_exists}

-- How many referring calls the request names.
abbrev pub refcalls : List ReferringCallList → ℕ
refcalls [] = 0
refcalls (l ∷ ls) = length l.rcl_refcalls + refcalls ls

module _ (times_out : ℕ → ℕ → Bool) where
  wait_refcalls_bound :
      (refs : List (ℕ × ℕ)) (found : ℕ)
      → ((wait_refcalls times_out refs found).0 ≤ 1)
        × ((wait_refcalls times_out refs found).1 ≤ found + length refs)
  unfolding wait_refcalls
  wait_refcalls_bound [] found = omega arith
  wait_refcalls_bound ((slotid, seqid) ∷ refs) found =
      ground (arith, wait_refcalls_bound refs (add32 found 1))

  wait_rclists_bound :
      (sess_id : ℕ) (ls : List ReferringCallList) (found : ℕ)
      → ((wait_rclists times_out sess_id ls found).0 ≤ 1)
        × ((wait_rclists times_out sess_id ls found).1 ≤ found + refcalls ls)
  unfolding wait_rclists
  wait_rclists_bound sess_id [] found = omega arith
  wait_rclists_bound sess_id (l ∷ ls) found = ground (
    arith,
    wait_refcalls_bound l.rcl_refcalls found,
    wait_rclists_bound sess_id ls found,
    wait_rclists_bound sess_id ls (wait_refcalls times_out l.rcl_refcalls found).1,
  )

  -- The int that `referring_call_exists` returns is never negative, whichever waits time out: its
  -- status is the value of a comparison, and is not below 0.
  pub referring_call_exists_nonneg :
      (sess_id : ℕ) (ls : List ReferringCallList)
      → refcalls ls < 2 ^ 31
      → is_neg32 (referring_call_exists times_out sess_id ls) ≡ false
  unfolding referring_call_exists
  referring_call_exists_nonneg sess_id ls h = ground (arith, wait_rclists_bound sess_id ls 0)

pub seq_nr_at-modify :
    (ss : List Slot) (p j : ℕ) (f : Slot → Slot)
    → ((s : Slot) → (f s).seq_nr ≡ s.seq_nr)
    → seq_nr_at (modify ss p f) j ≡ seq_nr_at ss j
seq_nr_at-modify [] p j f k = refl
seq_nr_at-modify (s ∷ ss) zero zero f k = k s
seq_nr_at-modify (s ∷ ss) zero (suc j) f k = refl
seq_nr_at-modify (s ∷ ss) (suc p) zero f k = refl
seq_nr_at-modify (s ∷ ss) (suc p) (suc j) f k = seq_nr_at-modify ss p j f k

pub seq_nr_at-modify_self :
    (ss : List Slot) (p v : ℕ)
    → p < length ss
    → seq_nr_at (modify ss p (λ s. record s { seq_nr = v })) p ≡ v
seq_nr_at-modify_self [] p v h = absurd (omega arith)
seq_nr_at-modify_self (s ∷ ss) zero v h = refl
seq_nr_at-modify_self (s ∷ ss) (suc p) v h = seq_nr_at-modify_self ss p v (omega arith)

seq_nr_at-append :
    (xs ys : List Slot) (j : ℕ) → j < length xs → seq_nr_at (xs ++ ys) j ≡ seq_nr_at xs j
seq_nr_at-append [] ys j h = absurd (omega arith)
seq_nr_at-append (x ∷ xs) ys zero h = refl
seq_nr_at-append (x ∷ xs) ys (suc j) h = seq_nr_at-append xs ys j (omega arith)

created-seq_nr :
    (mem : ℕ → Bool) (tbl : SlotTable) (slotid seq_init j : ℕ)
    → IsListed tbl
    → j < tbl.max_slots
    → seq_nr_at (created mem tbl slotid seq_init).0.slots j ≡ seq_nr_at tbl.slots j
unfolding created created_for grow
created-seq_nr mem tbl slotid seq_init j l h =
    seq_nr_at-append tbl.slots _ j (omega (arith, l.counted))

pub try_to_lock_slot-seq_nr :
    (tbl : SlotTable) (p j : ℕ)
    → seq_nr_at (try_to_lock_slot tbl p).0.slots j ≡ seq_nr_at tbl.slots j
unfolding try_to_lock_slot lock_slot
try_to_lock_slot-seq_nr tbl p j = elim (Bool-cases (tbl.used_slots (slot_nr_at tbl.slots p))) [
  | inl e ↦ rw e refl
  | inr e ↦ rw e (seq_nr_at-modify tbl.slots p j _ (λ s. refl))
]

-- What the lookup of a slot finds on a well-formed table.
abbrev pub LookedUp : SlotTable → ℕ → SlotTable × Found → Type 0
LookedUp tbl slotid (t, f) =
    ((j : ℕ) → j < tbl.max_slots → seq_nr_at t.slots j ≡ seq_nr_at tbl.slots j)
    × (t.used_slots ≡ tbl.used_slots)
    × (((f ≡ ok slotid) × IsWf t × (slotid < t.max_slots)) ⊎ ((e : Errno) × (f ≡ err e)))

pub lookup_slot-LookedUp :
    (mem : ℕ → Bool) (tbl : SlotTable) (slotid : ℕ)
    → IsWf tbl
    → LookedUp tbl slotid (lookup_slot mem tbl slotid)
unfolding lookup_slot created created_for grow
lookup_slot-LookedUp mem tbl slotid v = elim (Bool-cases (leb slotid tbl.max_slotid)) [
  | inl e ↦
      let small : slotid < 1024 = ground (arith, v.capped) in
      rw e (
        rw (find_slot-created mem tbl slotid 0 v.listed small) (
          (λ j h. created-seq_nr mem tbl slotid 0 j v.listed h),
          refl,
          elim (created_cases mem tbl slotid 0) [
            | inl f ↦
                inl (f, created-IsWf mem tbl slotid 0 v small, (created-ok mem tbl slotid 0 f).1)
            | inr f ↦ inr (no_mem, f)
          ],
        ))
  | inr e ↦ rw e ((λ j h. refl), refl, inr (too_big, refl))
]

pub length-try_to_lock_slot :
    (tbl : SlotTable) (p : ℕ) → length (try_to_lock_slot tbl p).0.slots ≡ length tbl.slots
unfolding try_to_lock_slot lock_slot
length-try_to_lock_slot tbl p = elim (Bool-cases (tbl.used_slots (slot_nr_at tbl.slots p))) [
  | inl e ↦ rw e refl
  | inr e ↦ rw e (length-modify tbl.slots p _)
]

-- ===== src/Slot/Alloc.antt =====
-- What `nfs4_alloc_slot`, `nfs4_lookup_slot` and `nfs4_slot_seqid_in_use` answer.
use mynfs.Base.{
  ℕ, zero, suc, ◌+◌, ◌-◌, ◌≤◌, ◌<◌, ◌≡◌, refl, ◌≢◌, ◌==◌, leb, ◌↔◌, if◌then◌else◌, Bool, true,
  false, ◌⊎◌, inl, inr, Bool-cases, arith, ◌%◌,
}
use mynfs.Slot.Kernel.{BitSearch}
use mynfs.Slot.Walk.{grow, allocated, allocated-le, created, created_for, find_slot-created}
use mynfs.Slot.Invariant.{IsWf, slot_nr_at-IsListed, lock_slot-IsWf, created-IsWf}
use mynfs.Slot.Table.{
  SlotTable, Found, ok, err, no_fuel, busy, no_mem, too_big, slot_nr_at, lock_slot, alloc_slot,
  lock_found,
}

-- What the walk hands out is the slot asked for, present; the bitmap is as before.
module _ (mem : ℕ → Bool) (tbl : SlotTable) (slotid seq_init : ℕ) where
  pub created-ok :
      {j : ℕ}
      → (created mem tbl slotid seq_init).1 ≡ ok j
      → (j ≡ slotid) × (slotid < (created mem tbl slotid seq_init).0.max_slots)
  unfolding created created_for grow
  created-ok h = ground (arith, allocated-le mem tbl.max_slots (suc slotid - tbl.max_slots))

  pub created-used_slots : (created mem tbl slotid seq_init).0.used_slots ≡ tbl.used_slots
  unfolding created created_for grow
  created-used_slots = refl

  pub created_cases :
      ((created mem tbl slotid seq_init).1 ≡ ok slotid)
      ⊎ ((created mem tbl slotid seq_init).1 ≡ err no_mem)
  unfolding created created_for
  created_cases = ground arith

allocated_all : (mem : ℕ → Bool) (n k : ℕ) → ((i : ℕ) → mem i ≡ true) → allocated mem n k ≡ k
unfolding allocated
allocated_all mem n zero all = refl
allocated_all mem n (suc k) all = ground (arith, all n, allocated_all mem (suc n) k all)

-- With memory for every slot the walk succeeds.
created_all :
    (mem : ℕ → Bool) (tbl : SlotTable) (slotid seq_init : ℕ)
    → ((i : ℕ) → mem i ≡ true)
    → (created mem tbl slotid seq_init).1 ≡ ok slotid
unfolding created created_for
created_all mem tbl slotid seq_init all =
    ground (arith, allocated_all mem tbl.max_slots (suc slotid - tbl.max_slots) all)

-- The allocation that a short walk ends with is the one that failed.
allocated_short :
    (mem : ℕ → Bool) (n k : ℕ)
    → allocated mem n k ≢ k
    → (allocated mem n k < k) × (mem (n + allocated mem n k) ≡ false)
unfolding allocated
allocated_short mem n zero h = absurd (h refl)
allocated_short mem n (suc k) h = elim (Bool-cases (mem n)) [
  | inl e ↦
      let (l, m) = allocated_short mem (suc n) k (λ q. h (rw (e, q))) in
      let q : n + suc (allocated mem (suc n) k) ≡ suc n + allocated mem (suc n) k = omega arith in
      rw e (omega arith, rw q m)
  | inr e ↦ let q : n + 0 ≡ n = omega arith in rw e (omega arith, rw q e)
]

-- A walk fails only where there is no memory for the next slot of the list, which the walk needs.
pub created_starved :
    (mem : ℕ → Bool) (tbl : SlotTable) (slotid seq_init : ℕ)
    → (created mem tbl slotid seq_init).1 ≡ err no_mem
    → let t = (created mem tbl slotid seq_init).0 in
      (t.max_slots ≤ slotid) × (mem t.max_slots ≡ false)
unfolding created created_for grow
created_starved mem tbl slotid seq_init h =
    let (l, m) =
      allocated_short mem tbl.max_slots (suc slotid - tbl.max_slots) (λ q. ground arith) in
    (omega (arith, l), m)

lock_found_ok :
    (r : SlotTable × Found) (p : ℕ) → r.1 ≡ ok p → lock_found r ≡ (lock_slot r.0 p, ok p)
lock_found_ok (t, ok q) p h = ground arith
lock_found_ok (t, err e) p h = absurd (cc)
lock_found_ok (t, no_fuel) p h = absurd (cc)

-- All slots in the list are in use, and there is no memory for the next one, which the limit allows.
abbrev pub IsStarved : (ℕ → Bool) → SlotTable → Type 0
IsStarved mem t =
    (t.max_slots ≤ t.max_slotid)
    × (mem t.max_slots ≡ false)
    × ((j : ℕ) → j < t.max_slots → t.used_slots j ≡ true)

-- What the answer tells of the slots in use.
abbrev pub AllocPost : (ℕ → Bool) → SlotTable → SlotTable → Found → Type 0
AllocPost mem tbl t (ok p) = (t.used_slots p ≡ true) × (tbl.used_slots p ≡ false)
AllocPost mem tbl t (err busy) = (j : ℕ) → j ≤ t.max_slotid → t.used_slots j ≡ true
AllocPost mem tbl t (err no_mem) = IsStarved mem t
AllocPost mem tbl t (err too_big) = ⊥
AllocPost mem tbl t no_fuel = ⊥

-- What no allocation touches.
pub record AllocKeeps (tbl t : SlotTable) : Type 0 where
  pub waitq : t.waitq ≡ tbl.waitq
  pub draining : t.draining ≡ tbl.draining
  pub max_slotid : t.max_slotid ≡ tbl.max_slotid
  pub target : t.target_highest_slotid ≡ tbl.target_highest_slotid
  pub server : t.server_highest_slotid ≡ tbl.server_highest_slotid
  pub used : (j : ℕ) → tbl.used_slots j ≡ true → t.used_slots j ≡ true

module _ (B : BitSearch) (mem : ℕ → Bool) (tbl : SlotTable) (v : IsWf tbl) where
  open B use {find_first_zero_bit}

  first_free : ℕ
  first_free = find_first_zero_bit tbl.used_slots (tbl.max_slotid + 1)

  -- The call, with its walk replaced by what the walk does.
  alloc_slot_lem : alloc_slot B mem tbl ≡ (
      if leb first_free tbl.max_slotid
      then lock_found (created mem tbl first_free 1)
      else (tbl, err busy))
  unfolding alloc_slot first_free
  alloc_slot_lem =
      let wrap : (tbl.max_slotid + 1) % 4294967296 ≡ tbl.max_slotid + 1 = omega (arith, v.capped) in
      rw wrap
        (elim (Bool-cases
          (leb (find_first_zero_bit tbl.used_slots (tbl.max_slotid + 1)) tbl.max_slotid)) [
            | inl e ↦ rw e (
                rw (
                  find_slot-created mem tbl
                    (find_first_zero_bit tbl.used_slots (tbl.max_slotid + 1)) 1 v.listed
                    (ground (arith, v.capped))))
            | inr e ↦ rw e
          ])

  first_free_small : first_free ≤ tbl.max_slotid → first_free < 1024
  first_free_small h = omega (arith, v.capped)

  lock_found_cases :
      (r : SlotTable × Found)
      → (r.1 ≡ ok first_free) ⊎ (r.1 ≡ err no_mem)
      → (lock_found r ≡ (lock_slot r.0 first_free, ok first_free))
        ⊎ ((lock_found r ≡ (r.0, err no_mem)) × (r.1 ≡ err no_mem))
  lock_found_cases (t, ok p) c = ground arith
  lock_found_cases (t, err p) c = ground arith
  lock_found_cases (t, no_fuel) c = ground arith

  -- The three ways in which the call can end.
  abbrev made : SlotTable
  made = (created mem tbl first_free 1).0

  alloc_cases :
      ((tbl.max_slotid < first_free) × (alloc_slot B mem tbl ≡ (tbl, err busy)))
      ⊎ ((first_free ≤ tbl.max_slotid)
          × (first_free < made.max_slots)
          × (alloc_slot B mem tbl ≡ (lock_slot made first_free, ok first_free)))
      ⊎ ((first_free ≤ tbl.max_slotid)
          × (alloc_slot B mem tbl ≡ (made, err no_mem))
          × ((created mem tbl first_free 1).1 ≡ err no_mem))
  alloc_cases = rw alloc_slot_lem (
      ground (
        arith,
        lock_found_cases (created mem tbl first_free 1) (created_cases mem tbl first_free 1),
        created-ok mem tbl first_free 1 {j = first_free},
        created_cases mem tbl first_free 1,
      ))

  made-IsWf : first_free ≤ tbl.max_slotid → IsWf made
  made-IsWf h = created-IsWf mem tbl first_free 1 v (first_free_small h)

  -- Allocation keeps the invariant, also where memory runs out halfway.
  pub alloc_slot-IsWf : IsWf (alloc_slot B mem tbl).0
  alloc_slot-IsWf = elim alloc_cases [
    | inl (_, e) ↦ rw e v
    | inr (inl (h, k, e)) ↦ rw e (lock_slot-IsWf made first_free (made-IsWf h) k)
    | inr (inr (h, e, _)) ↦ rw e (made-IsWf h)
  ]

  first_free_clear : first_free ≤ tbl.max_slotid → tbl.used_slots first_free ≡ false
  unfolding first_free
  first_free_clear h = B.first_zero_clear tbl.used_slots (tbl.max_slotid + 1) (omega arith)

  first_free_below : (j : ℕ) → j < first_free → tbl.used_slots j ≡ true
  unfolding first_free
  first_free_below j h = B.first_zero_below tbl.used_slots (tbl.max_slotid + 1) j h

  made_slot_nr :
      first_free ≤ tbl.max_slotid
      → first_free < made.max_slots
      → slot_nr_at made.slots first_free ≡ first_free
  made_slot_nr h k = slot_nr_at-IsListed made first_free (made-IsWf h).listed k

  -- A slot that is handed out is the lowest one that was free, lies within the limit, and is in the
  -- list; of the bitmap just its bit changes.
  pub alloc_slot-ok :
      {i : ℕ}
      → (alloc_slot B mem tbl).1 ≡ ok i
      → let t = (alloc_slot B mem tbl).0 in
        (i ≤ tbl.max_slotid)
        × (tbl.used_slots i ≡ false)
        × ((j : ℕ) → j < i → tbl.used_slots j ≡ true)
        × (i < t.max_slots)
        × ((j : ℕ) → t.used_slots j ≡ (if i == j then true else tbl.used_slots j))
  unfolding lock_slot
  alloc_slot-ok {i} h = elim alloc_cases [
    | inl (_, e) ↦ absurd (cc)
    | inr (inl (l, k, e)) ↦
        let n : i ≡ first_free = ground arith in
        rw (e, n)
          (
            l,
            first_free_clear l,
            first_free_below,
            k,
            λ j. rw (made_slot_nr l k) (ground (arith, created-used_slots mem tbl first_free 1)),
          )
    | inr (inr (_, e, _)) ↦ absurd (cc)
  ]

  -- The call answers EBUSY exactly when every slot within the limit is in use.
  pub alloc_slot-busy :
      ((alloc_slot B mem tbl).1 ≡ err busy)
      ↔ ((j : ℕ) → j ≤ tbl.max_slotid → tbl.used_slots j ≡ true)
  alloc_slot-busy = elim alloc_cases [
    | inl (l, e) ↦ rw e (λ _ j h. first_free_below j (omega arith), λ _. refl)
    | inr (inl (l, k, e)) ↦
        rw e (λ h. absurd (cc), λ all. ground (arith, all first_free l, first_free_clear l))
    | inr (inr (l, e, _)) ↦
        rw e (λ h. absurd (cc), λ all. ground (arith, all first_free l, first_free_clear l))
  ]

  -- A free slot within the limit is handed out as long as memory lasts.
  pub alloc_slot_progress :
      (j : ℕ)
      → j ≤ tbl.max_slotid
      → tbl.used_slots j ≡ false
      → ((i : ℕ) → mem i ≡ true)
      → (i : ℕ) × ((alloc_slot B mem tbl).1 ≡ ok i)
  alloc_slot_progress j h clear all = elim alloc_cases [
    | inl (l, e) ↦ absurd (ground (arith, first_free_below j))
    | inr (inl (l, k, e)) ↦ (first_free, rw e)
    | inr (inr (l, e, _)) ↦ ground (
      arith,
      alloc_slot_lem,
      created_all mem tbl first_free 1 all,
      lock_found_ok (created mem tbl first_free 1) first_free,
    )
  ]

  pub alloc_slot-AllocPost : AllocPost mem tbl (alloc_slot B mem tbl).0 (alloc_slot B mem tbl).1
  unfolding lock_slot created created_for grow
  alloc_slot-AllocPost = elim alloc_cases [
    | inl (l, e) ↦ rw e (λ j h. first_free_below j (omega arith))
    | inr (inl (l, k, e)) ↦ rw e (rw (made_slot_nr l k) (ground arith, first_free_clear l))
    | inr (inr (l, e, m)) ↦
        let (k, f) = created_starved mem tbl first_free 1 m in
        rw e (omega (arith, k), f, λ j h. first_free_below j (omega (arith, k)))
  ]

  pub alloc_slot-AllocKeeps : AllocKeeps tbl (alloc_slot B mem tbl).0
  unfolding lock_slot created created_for grow
  alloc_slot-AllocKeeps = elim alloc_cases [
    | inl (l, e) ↦ rw e (record {
      waitq = refl;
      draining = refl;
      max_slotid = refl;
      target = refl;
      server = refl;
      used = λ j h. h;
    })
    | inr (inl (l, k, e)) ↦ rw e (record {
      waitq = refl;
      draining = refl;
      max_slotid = refl;
      target = refl;
      server = refl;
      used = λ j h. ground arith;
    })
    | inr (inr (l, e, _)) ↦ rw e (record {
      waitq = refl;
      draining = refl;
      max_slotid = refl;
      target = refl;
      server = refl;
      used = λ j h. h;
    })
  ]

  -- The only slot that may be in use now and was not before is the one that is handed out.
  pub alloc_slot-only :
      (j : ℕ)
      → (alloc_slot B mem tbl).0.used_slots j ≡ true
      → tbl.used_slots j ≡ false
      → (alloc_slot B mem tbl).1 ≡ ok j
  unfolding lock_slot created created_for grow
  alloc_slot-only j = elim alloc_cases [
    | inl (l, e) ↦ rw e (λ h c. absurd (cc))
    | inr (inl (l, k, e)) ↦ rw e (rw (made_slot_nr l k) (λ h c. ground arith))
    | inr (inr (l, e, m)) ↦ rw e (λ h c. absurd (cc))
  ]

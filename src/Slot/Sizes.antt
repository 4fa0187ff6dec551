-- ===== src/Slot/Sizes.antt =====
-- Shrinking, resetting and resizing keep the slot table well formed and within the server's limits.
use Prim.Native.Nat.{min}
use mynfs.Base.{
  ℕ, zero, suc, ◌+◌, ◌-◌, ◌%◌, ◌≤◌, ◌<◌, ◌≡◌, refl, ltb, ◌==◌, Bool, true, inl, inr, List, [], ◌∷◌,
  length, length-take, take, ap, Bool-cases, add32, arith,
}
use mynfs.Slot.Kernel.{BitSearch, WaitQueue}
use mynfs.Slot.Walk.{Numbered, IsListed}
use mynfs.Slot.Invariant.{IsWf}
use mynfs.Slot.Wake.{Grant}
use mynfs.Slot.Wakeups.{wake_slot_table-settles}
use mynfs.Slot.Table.{Slot, SlotTable, unlink_from, shrink_slot_table}
use mynfs.Slot.Resize.{
  set_target_slotid_locked, set_server_slotid_locked, is_outlier_target_slotid, SequenceRes,
  clamp_slotid, set_max_slotid_locked, update_target_slotid, take_target, take_server,
  generation_at,
}

unlink_from-take : (n : ℕ) (ss : List Slot) → (unlink_from n ss).0 ≡ take n ss
unfolding unlink_from
unlink_from-take zero [] = refl
unlink_from-take (suc n) [] = refl
unlink_from-take zero (s ∷ ss) = refl
unlink_from-take (suc n) (s ∷ ss) = ap (◌∷◌ s) (unlink_from-take n ss)

unlink_from-freed : (n : ℕ) (ss : List Slot) → (unlink_from n ss).1 ≡ length ss - n
unfolding unlink_from
unlink_from-freed zero [] = omega arith
unlink_from-freed (suc n) [] = omega arith
unlink_from-freed zero (s ∷ ss) = omega (arith, unlink_from-freed zero ss)
unlink_from-freed (suc n) (s ∷ ss) = omega (arith, unlink_from-freed n ss)

take_all : (n : ℕ) (ss : List Slot) → length ss ≤ n → take n ss ≡ ss
take_all zero [] h = refl
take_all zero (s ∷ ss) h = absurd (omega arith)
take_all (suc n) [] h = refl
take_all (suc n) (s ∷ ss) h = ap (◌∷◌ s) (take_all n ss (omega arith))

-- The table cut off at `n` slots.
unfoldable pub cut : SlotTable → ℕ → SlotTable
cut tbl n = record tbl { slots = take n tbl.slots; max_slots = min n tbl.max_slots }

-- Shrinking keeps the first `newsize` slots and counts them, whatever the size was.
pub shrink_slot_table-cut :
    (tbl : SlotTable) (newsize : ℕ)
    → IsListed tbl
    → tbl.max_slots ≤ 1024
    → shrink_slot_table tbl newsize ≡ cut tbl newsize
unfolding shrink_slot_table cut
shrink_slot_table-cut tbl n l small = ground (
  arith,
  unlink_from-take n tbl.slots,
  unlink_from-freed n tbl.slots,
  take_all n tbl.slots,
  l.counted,
)

Numbered-take : (m n : ℕ) (ss : List Slot) → Numbered m ss → Numbered m (take n ss)
Numbered-take m zero ss h = tt
Numbered-take m (suc n) [] h = tt
Numbered-take m (suc n) (s ∷ ss) h = (h.0, Numbered-take (suc m) n ss h.1)

pub cut-IsListed : (tbl : SlotTable) (n : ℕ) → IsListed tbl → IsListed (cut tbl n)
unfolding cut
cut-IsListed tbl n l = record {
  numbered = Numbered-take 0 n tbl.slots l.numbered;
  counted = omega (arith, l.counted, length-take n tbl.slots);
}

cut-IsWf :
    (tbl : SlotTable) (n : ℕ)
    → IsWf tbl
    → ((i : ℕ) → tbl.used_slots i ≡ true → i < n)
    → IsWf (cut tbl n)
unfolding cut
cut-IsWf tbl n v below = record {
  listed = record {
    numbered = Numbered-take 0 n tbl.slots v.listed.numbered;
    counted = omega (arith, v.listed.counted, length-take n tbl.slots);
  };
  capped = v.capped;
  sized = omega (arith, v.sized);
  located = λ i u. omega (arith, v.located i u, below i u);
  highest = v.highest;
}

-- The limits and the derivatives are no part of the invariant, but for `max_slotid`.
relimited : SlotTable → ℕ → ℕ → ℕ → ℕ → ℕ → ℕ → SlotTable
relimited t m target server d d2 g = record t {
  max_slotid = m;
  target_highest_slotid = target;
  server_highest_slotid = server;
  d_target_highest_slotid = d;
  d2_target_highest_slotid = d2;
  generation = g;
}

relimited-IsWf :
    (t : SlotTable) (m target server d d2 g : ℕ)
    → IsWf t
    → m < 1024
    → IsWf (relimited t m target server d d2 g)
unfolding relimited
relimited-IsWf t m target server d d2 g v h = record {
  listed = record { numbered = v.listed.numbered; counted = v.listed.counted };
  capped = h;
  sized = v.sized;
  located = v.located;
  highest = v.highest;
}

-- A new server limit drops slots only above every slot in use.
set_server_slotid_locked-IsWf :
    (tbl : SlotTable) (highest_slotid : ℕ)
    → IsWf tbl
    → highest_slotid < 1024
    → IsWf (set_server_slotid_locked tbl highest_slotid)
unfolding set_server_slotid_locked relimited
set_server_slotid_locked-IsWf tbl h v small = elim (Bool-cases (tbl.server_highest_slotid == h)) [
  | inl e ↦ rw e v
  | inr e ↦ elim (Bool-cases (ltb h tbl.highest_used_slotid)) [
    | inl f ↦ rw (e, f) v
    | inr f ↦
        let wrap : (h + 1) % 4294967296 ≡ h + 1 = omega arith in
        let w = cut-IsWf tbl (h + 1) v (λ i u. ground (arith, v.highest.topped i u)) in
        rw (e, f, wrap)
          (rw (shrink_slot_table-cut tbl (h + 1) v.listed v.sized)
            (relimited-IsWf (cut tbl (h + 1)) _ _ h _ _ _ w w.capped))
  ]
]

set_target_slotid_locked-IsWf :
    (tbl : SlotTable) (target : ℕ) → IsWf tbl → IsWf (set_target_slotid_locked tbl target)
unfolding set_target_slotid_locked relimited
set_target_slotid_locked-IsWf tbl target v =
    elim (Bool-cases (tbl.target_highest_slotid == target)) [
      | inl e ↦ rw e v
      | inr e ↦ rw e (relimited-IsWf tbl _ target _ _ _ _ v v.capped)
    ]

is_outlier_target_slotid-IsWf :
    (tbl : SlotTable) (target : ℕ) → IsWf tbl → IsWf (is_outlier_target_slotid tbl target).0
unfolding is_outlier_target_slotid relimited
is_outlier_target_slotid-IsWf tbl target v = relimited-IsWf tbl _ _ _ _ _ _ v v.capped

take_target-IsWf : (tbl : SlotTable) (target : ℕ) → IsWf tbl → IsWf (take_target tbl target)
unfolding take_target
take_target-IsWf tbl target v =
    let w = is_outlier_target_slotid-IsWf tbl target v in
    elim (Bool-cases (is_outlier_target_slotid tbl target).1) [
      | inl e ↦ rw e w
      | inr e ↦ rw e (set_target_slotid_locked-IsWf _ target w)
    ]

take_server-IsWf :
    (tbl : SlotTable) (p highest : ℕ) → IsWf tbl → highest < 1024 → IsWf (take_server tbl p highest)
unfolding take_server
take_server-IsWf tbl p highest v h =
    elim (Bool-cases (tbl.generation == generation_at tbl.slots p)) [
      | inl e ↦ rw e (set_server_slotid_locked-IsWf tbl highest v h)
      | inr e ↦ rw e v
    ]

-- Neither step touches the bitmap.
shrink-used_slots :
    (tbl : SlotTable) (n : ℕ) → (shrink_slot_table tbl n).used_slots ≡ tbl.used_slots
unfolding shrink_slot_table
shrink-used_slots tbl n = ground arith

take_server-used_slots :
    (tbl : SlotTable) (p highest : ℕ) → (take_server tbl p highest).used_slots ≡ tbl.used_slots
unfolding take_server set_server_slotid_locked
take_server-used_slots tbl p highest = ground (arith, shrink-used_slots tbl (add32 highest 1))

set_target-used_slots :
    (tbl : SlotTable) (target : ℕ)
    → (set_target_slotid_locked tbl target).used_slots ≡ tbl.used_slots
unfolding set_target_slotid_locked
set_target-used_slots tbl target = ground arith

take_target-used_slots :
    (tbl : SlotTable) (target : ℕ) → (take_target tbl target).used_slots ≡ tbl.used_slots
unfolding take_target is_outlier_target_slotid
take_target-used_slots tbl target = elim (Bool-cases (is_outlier_target_slotid tbl target).1) [
  | inl e ↦ rw e refl
  | inr e ↦ rw e (set_target-used_slots (is_outlier_target_slotid tbl target).0 target)
]

module _ (B : BitSearch) (W : WaitQueue) (mem : ℕ → Bool) (now : ℕ) where
  -- The limit after an update, and what it means for the slots.
  abbrev pub IsSized : SlotTable → SlotTable × List Grant × Bool → Type 0
  IsSized tbl (t, grants, done) =
      IsWf t
      × (done ≡ true)
      × (t.max_slotid ≤ t.server_highest_slotid)
      × (t.max_slotid ≤ t.target_highest_slotid)
      × ((j : ℕ) → tbl.used_slots j ≡ true → t.used_slots j ≡ true)

  set_max_slotid_locked-IsSized :
      (tbl : SlotTable) (target : ℕ)
      → IsWf tbl
      → IsSized tbl (set_max_slotid_locked B W mem now tbl target)
  unfolding set_max_slotid_locked relimited
  set_max_slotid_locked-IsSized tbl target v =
      let m = clamp_slotid B W mem now tbl target in
      let w =
        relimited-IsWf tbl m tbl.target_highest_slotid tbl.server_highest_slotid
          tbl.d_target_highest_slotid tbl.d2_target_highest_slotid tbl.generation v
          (ground arith) in
      let (v', k, _, d, _, _) =
        wake_slot_table-settles B W mem now (record tbl { max_slotid = m }) w in
      (
        v',
        d,
        ground (arith, k.max_slotid, k.server),
        ground (arith, k.max_slotid, k.target),
        k.used,
      )

  -- The reply to SEQUENCE resizes the table: the invariant is kept, no slot in use is lost, the loop
  -- that wakes tasks ends, and the new limit exceeds neither the server's limit nor the target.
  pub update_target_slotid-IsSized :
      (tbl : SlotTable) (p : ℕ) (res : SequenceRes)
      → IsWf tbl
      → let (t, grants, done) = update_target_slotid B W mem now tbl p res in
        IsWf t
        × (done ≡ true)
        × (t.max_slotid ≤ t.server_highest_slotid)
        × (t.max_slotid ≤ t.target_highest_slotid)
        × ((j : ℕ) → tbl.used_slots j ≡ true → t.used_slots j ≡ true)
  unfolding update_target_slotid
  update_target_slotid-IsSized tbl p res v =
      let target = min res.sr_target_highest_slotid 1023 in
      let highest = min res.sr_highest_slotid 1023 in
      let w = take_server-IsWf _ p highest (take_target-IsWf tbl target v) (omega arith) in
      let (v', d, s, t, u) = set_max_slotid_locked-IsSized _ target w in
      (
        v',
        d,
        s,
        t,
        λ j h. u j (
            rw
              (
                take_server-used_slots (take_target tbl target) p highest,
                take_target-used_slots tbl target,
              )
              h),
      )

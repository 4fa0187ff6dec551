-- ===== src/Slot/Realloc.antt =====
-- A slot table set up anew or reset.
use Prim.Native.Nat.{min}
use mynfs.Base.{
  ℕ, suc, ◌+◌, ◌-◌, ◌%◌, ◌≤◌, ◌<◌, ◌≡◌, refl, leb, ltb, if◌then◌else◌, Bool, false, inl, inr,
  Option, none, some, List, [], ◌∷◌, map, length, take, All, subst, Bool-cases, sub32, arith, ◌⊎◌,
}
use mynfs.Slot.Walk.{Numbered, IsListed, created, find_slot-created}
use mynfs.Slot.Invariant.{IsWf, created-IsListed, created_small}
use mynfs.Slot.Alloc.{created_starved, created_cases, created-ok, created-used_slots}
use mynfs.Slot.Sizes.{cut, cut-IsListed, shrink_slot_table-cut}
use mynfs.Slot.Table.{Slot, SlotTable, Found, ok, err, no_fuel, no_mem, Errno}
use mynfs.Slot.Resize.{
  grow_slot_table, walk_status, reset_grown, reset_slot, reset_slot_table, realloc_slot_table,
}

-- Every slot starts at `ivalue`, with the number before it as the last one acknowledged.
abbrev pub StartsAt : ℕ → Slot → Type 0
StartsAt ivalue s =
    (s.seq_nr ≡ ivalue) × (s.seq_nr_highest_sent ≡ ivalue) × (s.seq_nr_last_acked ≡ sub32 ivalue 1)

map-reset-StartsAt :
    (ivalue : ℕ) (ss : List Slot) → All (StartsAt ivalue) (map (reset_slot ivalue) ss)
map-reset-StartsAt ivalue [] = tt
map-reset-StartsAt ivalue (s ∷ ss) = ((refl, refl, refl), map-reset-StartsAt ivalue ss)

map-reset-Numbered :
    (ivalue n : ℕ) (ss : List Slot) → Numbered n ss → Numbered n (map (reset_slot ivalue) ss)
map-reset-Numbered ivalue n [] h = tt
map-reset-Numbered ivalue n (s ∷ ss) h = (h.0, map-reset-Numbered ivalue (suc n) ss h.1)

length-map-reset : (ivalue : ℕ) (ss : List Slot) → length (map (reset_slot ivalue) ss) ≡ length ss
length-map-reset ivalue [] = refl
length-map-reset ivalue (s ∷ ss) = omega (arith, length-map-reset ivalue ss)

-- A table of `n` slots, all at rest.
pub record IsReset (t : SlotTable) (n ivalue : ℕ) : Type 0 where
  pub wf : IsWf t
  pub count : t.max_slots ≡ n
  pub limit : t.max_slotid + 1 ≡ n
  pub starts : All (StartsAt ivalue) t.slots

-- A reset of a table with no slot in use.
reset_slot_table-IsReset :
    (tbl : SlotTable) (n ivalue : ℕ)
    → IsListed tbl
    → tbl.max_slots ≤ 1024
    → ((i : ℕ) → tbl.used_slots i ≡ false)
    → n < 1024
    → n < tbl.max_slots
    → IsReset (reset_slot_table tbl n ivalue) (suc n) ivalue
unfolding reset_slot_table cut
reset_slot_table-IsReset tbl n ivalue l small idle h le =
    let wrap : (n + 1) % 4294967296 ≡ n + 1 = omega arith in
    let c = cut-IsListed tbl (n + 1) l in
    rw wrap (
      rw (shrink_slot_table-cut tbl (n + 1) l small) (record {
        wf = record {
          listed = record {
            numbered = map-reset-Numbered ivalue 0 _ c.numbered;
            counted = omega (arith, c.counted, length-map-reset ivalue (take (n + 1) tbl.slots));
          };
          capped = h;
          sized = omega arith;
          located = λ i u. ground (arith, idle i);
          highest = record {
            topped = λ i u. ground (arith, idle i);
            attained = λ q. absurd (q refl);
          };
        };
        count = omega arith;
        limit = omega arith;
        starts = map-reset-StartsAt ivalue _;
      }))

walk_status_ok : (r : SlotTable × Found) (p : ℕ) → r.1 ≡ ok p → walk_status r ≡ (r.0, none)
walk_status_ok (t, ok q) p h = refl
walk_status_ok (t, err e) p h = absurd (cc)
walk_status_ok (t, no_fuel) p h = absurd (cc)

walk_status_err : (r : SlotTable × Found) → r.1 ≡ err no_mem → walk_status r ≡ (r.0, some no_mem)
walk_status_err (t, ok q) h = absurd (cc)
walk_status_err (t, err e) h = refl
walk_status_err (t, no_fuel) h = absurd (cc)

-- The table after an attempt to have `n` slots.
abbrev Grown : (ℕ → Bool) → SlotTable → ℕ → SlotTable × Option Errno → Type 0
Grown mem tbl n (t, status) =
    IsListed t
    × (t.max_slots ≤ 1024)
    × (t.used_slots ≡ tbl.used_slots)
    × (((status ≡ none) × (n ≤ t.max_slots))
        ⊎ ((status ≡ some no_mem) × ((k : ℕ) × (mem k ≡ false))))

grow_slot_table-Grown :
    (mem : ℕ → Bool) (tbl : SlotTable) (max_reqs ivalue : ℕ)
    → IsListed tbl
    → tbl.max_slots ≤ 1024
    → 0 < max_reqs
    → max_reqs ≤ 1024
    → Grown mem tbl max_reqs (grow_slot_table mem tbl max_reqs ivalue)
unfolding grow_slot_table
grow_slot_table-Grown mem tbl max_reqs ivalue l small pos h =
    let n = max_reqs - 1 in
    elim (Bool-cases (leb max_reqs tbl.max_slots)) [
      | inl e ↦ rw e (l, small, refl, inl (refl, ground arith))
      | inr e ↦ rw e (
          rw (find_slot-created mem tbl n ivalue l (omega arith))
            (elim (created_cases mem tbl n ivalue) [
              | inl f ↦ rw (walk_status_ok (created mem tbl n ivalue) n f) (
                created-IsListed mem tbl n ivalue l,
                created_small mem tbl n ivalue small (omega arith),
                created-used_slots mem tbl n ivalue,
                inl (refl, omega (arith, created-ok mem tbl n ivalue f)),
              )
              | inr f ↦ rw (walk_status_err (created mem tbl n ivalue) f) (
                created-IsListed mem tbl n ivalue l,
                created_small mem tbl n ivalue small (omega arith),
                created-used_slots mem tbl n ivalue,
                inr (refl, (_, (created_starved mem tbl n ivalue f).1)),
              )
            ]))
    ]

-- A full reset, or no memory.
abbrev pub Reallocated : (ℕ → Bool) → SlotTable → ℕ → ℕ → SlotTable × Option Errno → Type 0
Reallocated mem tbl n ivalue (t, status) =
    ((status ≡ none) × IsReset t n ivalue)
    ⊎ ((status ≡ some no_mem) × (t.used_slots ≡ tbl.used_slots) × ((k : ℕ) × (mem k ≡ false)))

reset_grown-Reallocated :
    (mem : ℕ → Bool) (tbl : SlotTable) (n ivalue : ℕ) (r : SlotTable × Option Errno)
    → ((i : ℕ) → tbl.used_slots i ≡ false)
    → 0 < n
    → n ≤ 1024
    → Grown mem tbl n r
    → Reallocated mem tbl n ivalue (reset_grown n ivalue r)
reset_grown-Reallocated mem tbl n ivalue (t, some e) idle pos h (l, small, u, c) = ground arith
reset_grown-Reallocated mem tbl n ivalue (t, none) idle pos h (l, small, u, inr c) = absurd (cc)
reset_grown-Reallocated mem tbl n ivalue (t, none) idle pos h (l, small, u, inl c) =
    let e : sub32 n 1 ≡ n - 1 = omega arith in
    let e' : suc (n - 1) ≡ n = omega arith in
    let idle' : (i : ℕ) → t.used_slots i ≡ false = λ i. rw u (idle i) in
    inl (
      refl,
      rw e (
          subst (λ m. IsReset (reset_slot_table t (n - 1) ivalue) m ivalue) e'
            (reset_slot_table-IsReset t (n - 1) ivalue l small idle' (omega arith) (omega arith))),
    )

-- (Re)initialising a table with no slot in use, for at least one request: either it then has exactly
-- the slots asked for, 1024 at most, each at the start of its sequence, and satisfies the invariant,
-- or an allocation failed, ENOMEM is returned and the bitmap is as it was.
pub realloc_slot_table-Reallocated :
    (mem : ℕ → Bool) (tbl : SlotTable) (max_reqs ivalue : ℕ)
    → IsListed tbl
    → tbl.max_slots ≤ 1024
    → ((i : ℕ) → tbl.used_slots i ≡ false)
    → 0 < max_reqs
    → Reallocated mem tbl (min max_reqs 1024) ivalue (realloc_slot_table mem tbl max_reqs ivalue)
unfolding realloc_slot_table
realloc_slot_table-Reallocated mem tbl max_reqs ivalue l small idle pos =
    let e : (if ltb 1024 max_reqs then 1024 else max_reqs) ≡ min max_reqs 1024 = ground arith in
    rw e (
      reset_grown-Reallocated mem tbl (min max_reqs 1024) ivalue
        (grow_slot_table mem tbl (min max_reqs 1024) ivalue) idle (omega arith) (omega arith)
        (grow_slot_table-Grown mem tbl (min max_reqs 1024) ivalue l small (omega arith)
          (omega arith)))

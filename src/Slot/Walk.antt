-- ===== src/Slot/Walk.antt =====
-- The walk of `nfs4_find_or_create_slot` over a list numbered from 0.
use mathlib.Core.List.{append-nil, append_assoc}
use native.Mathlib.Nat.{add-zero}
use native.Mathlib.Numerals.{add-one}
use mynfs.Base.{
  ◌%◌, ℕ, zero, suc, ◌+◌, ◌-◌, ◌≤◌, ◌<◌, ◌≡◌, refl, ap, ◌==◌, if◌then◌else◌, Bool, true, false,
  some, List, [], ◌∷◌, ◌++◌, length, length-append, get_elem?, get_elem?-none, get_elem?-some, inl,
  inr, Option-cases, arith,
}
use mynfs.Slot.Table.{
  Slot, SlotTable, Found, ok, err, no_mem, new_slot, find_or_create_slot, find_slot,
}

-- Slot numbers count up by one along the list.
abbrev pub Numbered : ℕ → List Slot → Type 0
Numbered n [] = Unit {0}
Numbered n (s ∷ ss) = (s.slot_nr ≡ n) × Numbered (suc n) ss

unfoldable pub fresh_slots : ℕ → ℕ → ℕ → List Slot
fresh_slots n zero seq_init = []
fresh_slots n (suc k) seq_init = new_slot n seq_init ∷ fresh_slots (suc n) k seq_init

-- The table after `k` more slots were created at its end.
unfoldable pub grow : SlotTable → ℕ → ℕ → SlotTable
grow tbl k seq_init = record tbl {
  slots = tbl.slots ++ fresh_slots tbl.max_slots k seq_init;
  max_slots = tbl.max_slots + k;
}

-- How many of `k` allocations, from slot number `n` on, succeed before the first that fails.
unfoldable pub allocated : (ℕ → Bool) → ℕ → ℕ → ℕ
allocated mem n zero = 0
allocated mem n (suc k) = let rest = allocated mem (suc n) k in if mem n then suc rest else 0

-- What a walk to `slotid` does when `want` slots are missing: it creates them, as far as memory goes.
unfoldable pub created_for : (ℕ → Bool) → SlotTable → ℕ → ℕ → ℕ → SlotTable × Found
created_for mem tbl slotid seq_init want =
    let got = allocated mem tbl.max_slots want in
    (grow tbl got seq_init, if got == want then ok slotid else err no_mem)

unfoldable pub created : (ℕ → Bool) → SlotTable → ℕ → ℕ → SlotTable × Found
created mem tbl slotid seq_init = created_for mem tbl slotid seq_init (suc slotid - tbl.max_slots)

pub Numbered-get_elem? :
    (n : ℕ) (ss : List Slot) (i : ℕ) {s : Slot}
    → Numbered n ss
    → get_elem? ss i ≡ some s
    → s.slot_nr ≡ n + i
Numbered-get_elem? n [] i h e = absurd (cc)
Numbered-get_elem? n (x ∷ ss) zero h e = ground arith
Numbered-get_elem? n (x ∷ ss) (suc i) h e = omega (arith, Numbered-get_elem? (suc n) ss i h.1 e)

pub Numbered-append :
    (n m : ℕ) (xs ys : List Slot)
    → n + length xs ≡ m
    → Numbered n xs
    → Numbered m ys
    → Numbered n (xs ++ ys)
Numbered-append n m [] ys e h k = let e' : n ≡ m = omega arith in rw e' k
Numbered-append n m (x ∷ xs) ys e h k = (h.0, Numbered-append (suc n) m xs ys (omega arith) h.1 k)

pub fresh_slots-Numbered : (n k seq_init : ℕ) → Numbered n (fresh_slots n k seq_init)
unfolding fresh_slots new_slot
fresh_slots-Numbered n zero seq_init = tt
fresh_slots-Numbered n (suc k) seq_init = (refl, fresh_slots-Numbered (suc n) k seq_init)

pub length-fresh_slots : (n k seq_init : ℕ) → length (fresh_slots n k seq_init) ≡ k
unfolding fresh_slots
length-fresh_slots n zero seq_init = refl
length-fresh_slots n (suc k) seq_init = ap suc (length-fresh_slots (suc n) k seq_init)

pub allocated-le : (mem : ℕ → Bool) (n k : ℕ) → allocated mem n k ≤ k
unfolding allocated
allocated-le mem n zero = omega arith
allocated-le mem n (suc k) = ground (arith, allocated-le mem (suc n) k)

-- Nothing is created for a slot that is there.
created_here :
    (mem : ℕ → Bool) (tbl : SlotTable) (slotid seq_init : ℕ)
    → slotid < tbl.max_slots
    → created mem tbl slotid seq_init ≡ (tbl, ok slotid)
unfolding created created_for allocated grow fresh_slots
created_here mem tbl slotid seq_init h =
    let e : suc slotid - tbl.max_slots ≡ 0 = omega arith in rw e (rw append-nil (rw add-zero refl))

module _ (mem : ℕ → Bool) (tbl : SlotTable) (seq_init : ℕ) where
  -- The table with one slot more.
  pub grown : SlotTable
  unfolding new_slot
  grown = record tbl {
    slots = tbl.slots ++ new_slot tbl.max_slots seq_init ∷ [];
    max_slots = tbl.max_slots + 1;
  }

  grow-grown : (k : ℕ) → grow grown k seq_init ≡ grow tbl (suc k) seq_init
  unfolding grow grown fresh_slots
  grow-grown k =
      let e : suc tbl.max_slots + k ≡ tbl.max_slots + suc k = omega arith in
      rw (add-one, append_assoc, e)

  grown-max_slots : grown.max_slots ≡ suc tbl.max_slots
  unfolding grown
  grown-max_slots = omega arith

  suc-== : (a b : ℕ) → (suc a == suc b) ≡ (a == b)
  suc-== a b = ground arith

  created_for-grown :
      (slotid k : ℕ)
      → mem tbl.max_slots ≡ true
      → created_for mem grown slotid seq_init k ≡ created_for mem tbl slotid seq_init (suc k)
  unfolding created_for allocated
  created_for-grown slotid k m = simp (grown-max_slots, m, grow-grown, suc-==)

  -- One more allocation, and the walk goes on over the longer list.
  created-grown :
      (slotid : ℕ)
      → mem tbl.max_slots ≡ true
      → tbl.max_slots ≤ slotid
      → created mem grown slotid seq_init ≡ created mem tbl slotid seq_init
  unfolding created
  created-grown slotid m h =
      let k = slotid - tbl.max_slots in
      let e : suc slotid - tbl.max_slots ≡ suc k = omega arith in
      let e' : suc slotid - grown.max_slots ≡ k = omega (arith, grown-max_slots) in
      rw (e, e') (created_for-grown slotid k m)

  created_last :
      mem tbl.max_slots ≡ true → created mem tbl tbl.max_slots seq_init ≡ (grown, ok tbl.max_slots)
  unfolding created created_for allocated grow grown fresh_slots
  created_last m = let e : suc tbl.max_slots - tbl.max_slots ≡ 1 = omega arith in rw (e, m)

  created_stops :
      (slotid : ℕ)
      → mem tbl.max_slots ≡ false
      → tbl.max_slots ≤ slotid
      → created mem tbl slotid seq_init ≡ (tbl, err no_mem)
  unfolding created created_for allocated grow fresh_slots
  created_stops slotid m h =
      let e : suc slotid - tbl.max_slots ≡ suc (slotid - tbl.max_slots) = omega arith in
      simp (e, m, append-nil, add-zero) (ground arith)

-- The list is numbered and counted.
pub record IsListed (tbl : SlotTable) : Type 0 where
  pub numbered : Numbered 0 tbl.slots
  pub counted : tbl.max_slots ≡ length tbl.slots

module _ (mem : ℕ → Bool) (seq_init : ℕ) where
  grown-IsListed : (tbl : SlotTable) → IsListed tbl → IsListed (grown mem tbl seq_init)
  unfolding grown new_slot
  grown-IsListed tbl h = record {
    numbered =
        Numbered-append 0 tbl.max_slots tbl.slots _ (omega (arith, h.counted)) h.numbered
          (refl, tt);
    counted =
        omega (arith, h.counted, length-append tbl.slots (new_slot tbl.max_slots seq_init ∷ []));
  }

  walk_lem :
      (fuel p : ℕ) (tbl : SlotTable) (slotid : ℕ)
      → IsListed tbl
      → slotid < 1024
      → p ≤ slotid
      → p ≤ tbl.max_slots
      → slotid < p + fuel
      → find_or_create_slot mem fuel p tbl slotid seq_init ≡ created mem tbl slotid seq_init
  unfolding find_or_create_slot grown
  walk_lem zero p tbl slotid l small hp hm hf = absurd (omega arith)
  walk_lem (suc fuel) p tbl slotid l small hp hm hf = elim (Option-cases (get_elem? tbl.slots p)) [
    | inr (s, e) ↦ ground (
      arith,
      get_elem?-some tbl.slots p e,
      Numbered-get_elem? 0 tbl.slots p l.numbered e,
      created_here mem tbl slotid seq_init,
      walk_lem fuel (suc p) tbl slotid l small,
    )
    | inl e ↦
        let q : tbl.max_slots ≡ p = omega (arith, get_elem?-none tbl.slots p e) in
        let wrap : (tbl.max_slots + 1) % 4294967296 ≡ tbl.max_slots + 1 = omega arith in
        ground (
          arith,
          created_last mem tbl seq_init,
          created_stops mem tbl seq_init slotid,
          created-grown mem tbl seq_init slotid,
          walk_lem fuel (suc p) (grown mem tbl seq_init) slotid (grown-IsListed tbl l) small,
        )
  ]

-- The walk of `nfs4_find_or_create_slot` ends, and does exactly what `created` says: it hands out
-- the slot of that number, after it created the missing ones up to it, unless memory ran out.
pub find_slot-created :
    (mem : ℕ → Bool) (tbl : SlotTable) (slotid seq_init : ℕ)
    → IsListed tbl
    → slotid < 1024
    → find_slot mem tbl slotid seq_init ≡ created mem tbl slotid seq_init
unfolding find_slot
find_slot-created mem tbl slotid seq_init l small =
    walk_lem mem seq_init (suc slotid) 0 tbl slotid l small (omega arith) (omega arith)
      (omega arith)

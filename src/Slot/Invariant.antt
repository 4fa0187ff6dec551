-- ===== src/Slot/Invariant.antt =====
-- The invariant of a slot table, kept by locking, freeing and allocating a slot.
use mynfs.Base.{
  ℕ, zero, suc, ◌+◌, ◌-◌, ◌≤◌, ◌<◌, ◌≡◌, refl, ◌==◌, leb, ◌&&◌, ◌↔◌, if◌then◌else◌, Bool, true,
  false, List, [], ◌∷◌, length, length-append, length-modify, modify, arith,
}
use mynfs.Slot.Kernel.{clear_bit, BitSearch}
use mynfs.Slot.Bitmap.{highest_after, IsHighest, IsHighest-set_bit, IsHighest-clear_bit}
use mynfs.Slot.Walk.{
  Numbered, Numbered-append, IsListed, fresh_slots, fresh_slots-Numbered, length-fresh_slots, grow,
  allocated-le, created, created_for,
}
use mynfs.Slot.Table.{Slot, SlotTable, slot_nr_at, lock_slot, free_slot}

-- Slots are numbered by their positions, a used slot is in the list, and `highest_used_slotid` is
-- exactly the greatest used slot.
pub record IsWf (tbl : SlotTable) : Type 0 where
  pub listed : IsListed tbl
  pub capped : tbl.max_slotid < 1024
  pub sized : tbl.max_slots ≤ 1024
  pub located : (i : ℕ) → tbl.used_slots i ≡ true → i < tbl.max_slots
  pub highest : IsHighest tbl.used_slots tbl.highest_used_slotid

pub slot_nr_at-Numbered :
    (n : ℕ) (ss : List Slot) (p : ℕ) → Numbered n ss → p < length ss → slot_nr_at ss p ≡ n + p
slot_nr_at-Numbered n [] p h l = absurd (omega arith)
slot_nr_at-Numbered n (s ∷ ss) zero h l = omega (arith, h.0)
slot_nr_at-Numbered n (s ∷ ss) (suc p) h l =
    omega (arith, slot_nr_at-Numbered (suc n) ss p h.1 (omega arith))

pub slot_nr_at-IsListed :
    (tbl : SlotTable) (p : ℕ) → IsListed tbl → p < tbl.max_slots → slot_nr_at tbl.slots p ≡ p
slot_nr_at-IsListed tbl p l h =
    omega (arith, slot_nr_at-Numbered 0 tbl.slots p l.numbered (omega (arith, l.counted)))

-- A change of a slot that leaves its number alone leaves the list numbered.
pub Numbered-modify :
    (n : ℕ) (ss : List Slot) (p : ℕ) (f : Slot → Slot)
    → ((s : Slot) → (f s).slot_nr ≡ s.slot_nr)
    → Numbered n ss
    → Numbered n (modify ss p f)
Numbered-modify n [] p f k h = tt
Numbered-modify n (s ∷ ss) zero f k h = (omega (arith, k s), h.1)
Numbered-modify n (s ∷ ss) (suc p) f k h = (h.0, Numbered-modify (suc n) ss p f k h.1)

pub lock_slot-IsWf :
    (tbl : SlotTable) (p : ℕ) → IsWf tbl → p < tbl.max_slots → IsWf (lock_slot tbl p)
unfolding lock_slot
lock_slot-IsWf tbl p v h =
    let e : slot_nr_at tbl.slots p ≡ p = slot_nr_at-IsListed tbl p v.listed h in
    record {
      listed = record {
        numbered = Numbered-modify 0 tbl.slots p _ (λ s. refl) v.listed.numbered;
        counted = omega (arith, v.listed.counted, length-modify tbl.slots p);
      };
      capped = v.capped;
      sized = v.sized;
      located = λ i u. ground (arith, v.located i);
      highest = rw e (
          IsHighest-set_bit tbl.used_slots tbl.highest_used_slotid p v.highest
            (omega (arith, v.sized)));
    }

module _ (B : BitSearch) where
  -- The table after slot number `i` was freed, field by field.
  unfoldable pub freed : SlotTable → ℕ → SlotTable
  freed tbl i =
      let last =
        i == tbl.highest_used_slotid && leb i (B.find_last_bit (clear_bit i tbl.used_slots) i) in
      record tbl {
        used_slots = clear_bit i tbl.used_slots;
        highest_used_slotid = highest_after B tbl.used_slots tbl.highest_used_slotid i;
        completions = if tbl.draining && last then tbl.completions + 1 else tbl.completions;
      }

  pub free_slot-freed :
      (tbl : SlotTable) (p : ℕ) → IsListed tbl → p < tbl.max_slots → free_slot B tbl p ≡ freed tbl p
  unfolding free_slot freed
  free_slot-freed tbl p l h = rw (slot_nr_at-IsListed tbl p l h) (ground arith)

  -- Freeing a used slot keeps the invariant, so `highest_used_slotid` is again the greatest used slot.
  pub free_slot-IsWf :
      (tbl : SlotTable) (p : ℕ) → IsWf tbl → tbl.used_slots p ≡ true → IsWf (free_slot B tbl p)
  unfolding freed
  free_slot-IsWf tbl p v u = rw (free_slot-freed tbl p v.listed (v.located p u)) (record {
    listed = record { numbered = v.listed.numbered; counted = v.listed.counted };
    capped = v.capped;
    sized = v.sized;
    located = λ i e. ground (arith, v.located i);
    highest =
        IsHighest-clear_bit B tbl.used_slots tbl.highest_used_slotid p v.highest u
          (omega (arith, v.located p u, v.sized));
  })

  -- While the table drains, `complete` is called by exactly that free which leaves no slot in use.
  pub free_slot_drains :
      (tbl : SlotTable) (p : ℕ)
      → IsWf tbl
      → tbl.used_slots p ≡ true
      → tbl.draining ≡ true
      → ((free_slot B tbl p).completions ≡ tbl.completions + 1)
        ↔ ((i : ℕ) → (free_slot B tbl p).used_slots i ≡ false)
  unfolding freed
  free_slot_drains tbl p v u d = rw (free_slot-freed tbl p v.listed (v.located p u)) (
    λ e i. ground (
      arith,
      v.highest.topped i,
      B.last_none (clear_bit p tbl.used_slots) p i,
      B.last_le (clear_bit p tbl.used_slots) p,
    ),
    λ all. ground (
      arith,
      v.highest.topped p u,
      v.highest.attained,
      all tbl.highest_used_slotid,
      all (B.find_last_bit (clear_bit p tbl.used_slots) p),
      B.last_set (clear_bit p tbl.used_slots) p,
    ),
  )

-- The slots that a walk creates go on with the numbers.
grow-IsListed : (tbl : SlotTable) (k seq_init : ℕ) → IsListed tbl → IsListed (grow tbl k seq_init)
unfolding grow
grow-IsListed tbl k seq_init l = record {
  numbered =
      Numbered-append 0 tbl.max_slots tbl.slots _ (omega (arith, l.counted)) l.numbered
        (fresh_slots-Numbered tbl.max_slots k seq_init);
  counted = omega (
    arith,
    l.counted,
    length-append tbl.slots (fresh_slots tbl.max_slots k seq_init),
    length-fresh_slots tbl.max_slots k seq_init,
  );
}

pub created-IsListed :
    (mem : ℕ → Bool) (tbl : SlotTable) (slotid seq_init : ℕ)
    → IsListed tbl
    → IsListed (created mem tbl slotid seq_init).0
unfolding created created_for
created-IsListed mem tbl slotid seq_init l = grow-IsListed tbl _ seq_init l

pub created_small :
    (mem : ℕ → Bool) (tbl : SlotTable) (slotid seq_init : ℕ)
    → tbl.max_slots ≤ 1024
    → slotid < 1024
    → (created mem tbl slotid seq_init).0.max_slots ≤ 1024
unfolding created created_for grow
created_small mem tbl slotid seq_init h k =
    omega (arith, allocated-le mem tbl.max_slots (suc slotid - tbl.max_slots))

-- Nothing but the list and its length changes, so the invariant stays.
pub created-IsWf :
    (mem : ℕ → Bool) (tbl : SlotTable) (slotid seq_init : ℕ)
    → IsWf tbl
    → slotid < 1024
    → IsWf (created mem tbl slotid seq_init).0
unfolding created created_for grow
created-IsWf mem tbl slotid seq_init v h =
    let l = created-IsListed mem tbl slotid seq_init v.listed in
    record {
      listed = record { numbered = l.numbered; counted = l.counted };
      capped = v.capped;
      sized = created_small mem tbl slotid seq_init v.sized h;
      located = λ i u. omega (arith, v.located i u);
      highest = v.highest;
    }

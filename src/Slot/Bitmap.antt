-- ===== src/Slot/Bitmap.antt =====
-- `highest_used_slotid` against the bitmap of used slots.
use mynfs.Base.{ℕ, ◌≤◌, ◌<◌, ◌≡◌, ◌≢◌, ltb, ◌==◌, if◌then◌else◌, true, ◌||◌, arith}
use mynfs.Slot.Kernel.{Bits, set_bit, clear_bit, BitSearch}
use mynfs.Slot.Table.{no_slot}

-- `h` is the greatest bit set, or `no_slot` where none is.
pub record IsHighest (b : Bits) (h : ℕ) : Type 0 where
  pub topped : (i : ℕ) → b i ≡ true → (h ≢ no_slot) × (i ≤ h)
  pub attained : h ≢ no_slot → b h ≡ true

pub IsHighest-set_bit :
    (b : Bits) (h i : ℕ)
    → IsHighest b h
    → i < 1024
    → IsHighest (set_bit i b) (if ltb h i || h == no_slot then i else h)
IsHighest-set_bit b h i v small = record {
  topped = λ j e. ground (arith, v.topped j);
  attained = λ n. ground (arith, v.attained);
}

module _ (B : BitSearch) where
  open B use {find_last_bit}

  abbrev pub highest_after : Bits → ℕ → ℕ → ℕ
  highest_after b h i =
      let new_max = find_last_bit (clear_bit i b) i in
      if i == h then if ltb new_max i then new_max else no_slot else h

  pub IsHighest-clear_bit :
      (b : Bits) (h i : ℕ)
      → IsHighest b h
      → b i ≡ true
      → i < 1024
      → IsHighest (clear_bit i b) (highest_after b h i)
  IsHighest-clear_bit b h i v u small = record {
    topped = λ j e. ground (
      arith,
      v.topped j,
      B.last_above (clear_bit i b) i j,
      B.last_none (clear_bit i b) i j,
      B.last_le (clear_bit i b) i,
    );
    attained = λ n. ground (arith, v.attained, v.topped i u, B.last_set (clear_bit i b) i);
  }

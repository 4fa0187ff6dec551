-- ===== src/Slot/Small.antt =====
-- A small slot table, that the examples of the other modules share.
use mynfs.Base.{ℕ, refl, ◌==◌, Bool, true, false, [], ◌∷◌, arith}
use mynfs.Slot.Walk.{IsListed}
use mynfs.Slot.Invariant.{IsWf}
use mynfs.Slot.Table.{Slot, SlotTable}

abbrev pub plenty : ℕ → Bool
plenty _ = true

abbrev pub fresh : ℕ → Slot
fresh n = record {
  generation = 0;
  slot_nr = n;
  seq_nr = 1;
  seq_nr_highest_sent = 1;
  seq_nr_last_acked = 0;
  privileged = false;
  seq_done = false;
}

-- Slots 0 and 1, of which 1 is in use; up to four may be; a task waits; the table drains.
abbrev pub small_table : SlotTable
small_table = record {
  slots = fresh 0 ∷ fresh 1 ∷ [];
  used_slots = λ i. i == 1;
  waitq = record { task_id = 7; sa_privileged = true } ∷ [];
  max_slots = 2;
  max_slotid = 3;
  highest_used_slotid = 1;
  target_highest_slotid = 3;
  server_highest_slotid = 3;
  d_target_highest_slotid = 0;
  d2_target_highest_slotid = 0;
  generation = 0;
  draining = true;
  completions = 0;
}

pub small_table-IsListed : IsListed small_table
small_table-IsListed = record { numbered = (refl, (refl, tt)); counted = refl }

pub small_table-IsWf : IsWf small_table
small_table-IsWf = record {
  listed = small_table-IsListed;
  capped = omega arith;
  sized = omega arith;
  located = λ i u. ground arith;
  highest = record { topped = λ i u. ground arith; attained = λ n. refl };
}

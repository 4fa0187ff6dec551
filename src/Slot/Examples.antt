-- ===== src/Slot/Examples.antt =====
-- A small table, and the theorems about slot tables applied to it.
use mynfs.Base.{ℕ, ◌≤◌, ◌<◌, ◌≡◌, refl, ◌==◌, true, false, arith, if◌then◌else◌}
use mynfs.Slot.Concrete.{bit_search, wait_queue, first_zero}
use mynfs.Slot.Small.{plenty, small_table, small_table-IsWf}
use mynfs.Slot.Invariant.{IsWf, free_slot-IsWf}
use mynfs.Slot.Alloc.{alloc_slot-ok}
use mynfs.Slot.Wake.{wake_slot_table}
use mynfs.Slot.Wakeups.{Keeps, IsSettled, GrantsOf, TakesOnly, wake_slot_table-settles}
use mynfs.Slot.Sizes.{update_target_slotid-IsSized}
use mynfs.Slot.Resize.{init_slot_table, update_target_slotid, SequenceRes}
use mynfs.Slot.Session.{Session, setup_session_slot_tables}
use mynfs.Slot.SetUp.{IsIdle, SetUp, setup_session_slot_tables-SetUp}
use mynfs.Slot.Table.{find_slot, find_or_create_slot, free_slot, alloc_slot}

free_slot-IsWf_example : IsWf (free_slot bit_search small_table 1)
free_slot-IsWf_example = free_slot-IsWf bit_search small_table 1 small_table-IsWf refl

alloc_slot-ok_example :
    let t = (alloc_slot bit_search plenty small_table).0 in
    (0 ≤ small_table.max_slotid)
    × (small_table.used_slots 0 ≡ false)
    × ((j : ℕ) → j < 0 → small_table.used_slots j ≡ true)
    × (0 < t.max_slots)
    × ((j : ℕ) → t.used_slots j ≡ (if 0 == j then true else small_table.used_slots j))
unfolding alloc_slot first_zero find_slot find_or_create_slot
alloc_slot-ok_example = alloc_slot-ok bit_search plenty small_table small_table-IsWf {i = 0} refl

wake_slot_table-settles_example :
    let (t, grants, done) = wake_slot_table bit_search wait_queue plenty 0 small_table in
    IsWf t
    × Keeps bit_search wait_queue plenty 0 small_table t
    × IsSettled bit_search wait_queue plenty 0 t
    × (done ≡ true)
    × GrantsOf bit_search wait_queue plenty 0 small_table grants t
    × TakesOnly bit_search wait_queue plenty 0 small_table grants t
wake_slot_table-settles_example =
    wake_slot_table-settles bit_search wait_queue plenty 0 small_table small_table-IsWf

abbrev reply : SequenceRes
reply = record { sr_highest_slotid = 1; sr_target_highest_slotid = 9 }

update_target_slotid-IsSized_example :
    let (t, grants, done) =
      update_target_slotid bit_search wait_queue plenty 0 small_table 1 reply in
    IsWf t
    × (done ≡ true)
    × (t.max_slotid ≤ t.server_highest_slotid)
    × (t.max_slotid ≤ t.target_highest_slotid)
    × ((j : ℕ) → small_table.used_slots j ≡ true → t.used_slots j ≡ true)
update_target_slotid-IsSized_example =
    update_target_slotid-IsSized bit_search wait_queue plenty 0 small_table 1 reply small_table-IsWf

init_slot_table-IsIdle : IsIdle init_slot_table
unfolding init_slot_table
init_slot_table-IsIdle = record {
  listed = record { numbered = tt; counted = refl };
  small = omega arith;
  unused = λ i. refl;
}

abbrev session : Session
session = record {
  fc_slot_table = init_slot_table;
  bc_slot_table = init_slot_table;
  fc_max_reqs = 4;
  bc_max_reqs = 2;
  back_chan = true;
}

setup_session_slot_tables-SetUp_example :
    SetUp plenty plenty session (setup_session_slot_tables plenty plenty session)
setup_session_slot_tables-SetUp_example =
    setup_session_slot_tables-SetUp plenty plenty session init_slot_table-IsIdle
      init_slot_table-IsIdle (omega arith) (omega arith)

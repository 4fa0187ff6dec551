-- ===== src/Slot/Table.antt =====
-- The state of a slot table and its operations. A pointer to a slot is the slot's position in the
-- list `slots`; the spinlock makes each operation atomic. Debug prints are left out.
use mynfs.Base.{
  ℕ, zero, suc, ◌+◌, ◌-◌, ltb, leb, ◌==◌, if◌then◌else◌, Bool, true, false, ◌&&◌, ◌||◌, none, some,
  List, [], ◌∷◌, ◌++◌, get_elem?, modify, u32_mod, add32, sub32,
}
use mynfs.Slot.Kernel.{Bits, set_bit, clear_bit, BitSearch, Task}

abbrev pub max_slot_table : ℕ
max_slot_table = 1024

abbrev pub max_slotid_limit : ℕ
max_slotid_limit = max_slot_table - 1

-- `NFS4_NO_SLOT`, all ones.
abbrev pub no_slot : ℕ
no_slot = u32_mod - 1

pub record Slot : Type 0 where
  pub generation : ℕ
  pub slot_nr : ℕ
  pub seq_nr : ℕ
  pub seq_nr_last_acked : ℕ
  pub seq_nr_highest_sent : ℕ
  pub privileged : Bool
  pub seq_done : Bool

pub record SlotTable : Type 0 where
  pub slots : List Slot
  pub used_slots : Bits
  pub waitq : List Task
  pub max_slots : ℕ
  pub max_slotid : ℕ
  pub highest_used_slotid : ℕ
  pub target_highest_slotid : ℕ
  pub server_highest_slotid : ℕ
  pub d_target_highest_slotid : ℕ  -- s32
  pub d2_target_highest_slotid : ℕ  -- s32
  pub generation : ℕ  -- unsigned long
  pub draining : Bool  -- NFS4_SLOT_TBL_DRAINING of slot_tbl_state
  pub completions : ℕ  -- calls of complete(&tbl->complete)

pub data Errno : Type 0 where
  busy too_big no_mem : Errno

-- The third outcome is a walk that used up its fuel.
pub data Found : Type 0 where
  ok : ℕ → Found
  err : Errno → Found
  no_fuel : Found

unfoldable pub new_slot : ℕ → ℕ → Slot
new_slot slotid seq_init = record {
  generation = 0;
  slot_nr = slotid;
  seq_nr = seq_init;
  seq_nr_highest_sent = seq_init;
  seq_nr_last_acked = sub32 seq_init 1;
  privileged = false;
  seq_done = false;
}

-- `while (newsize--) p = &(*p)->next;` and then the loop that unlinks and counts down.
unfoldable pub unlink_from : ℕ → List Slot → List Slot × ℕ
unlink_from n [] = ([], 0)
unlink_from zero (s ∷ ss) = let (_, freed) = unlink_from zero ss in ([], suc freed)
unlink_from (suc n) (s ∷ ss) = let (kept, freed) = unlink_from n ss in (s ∷ kept, freed)

unfoldable pub shrink_slot_table : SlotTable → ℕ → SlotTable
shrink_slot_table tbl newsize =
    if leb tbl.max_slots newsize
    then tbl
    else (let (kept, freed) = unlink_from newsize tbl.slots in
        record tbl { slots = kept; max_slots = sub32 tbl.max_slots freed })

unfoldable pub slot_tbl_drain_complete : SlotTable → SlotTable
slot_tbl_drain_complete tbl =
    if tbl.draining then record tbl { completions = tbl.completions + 1 } else tbl

-- `mem k` says whether the allocation of slot number `k` succeeds.
unfoldable pub find_or_create_slot : (ℕ → Bool) → ℕ → ℕ → SlotTable → ℕ → ℕ → SlotTable × Found
unfolding new_slot
find_or_create_slot mem zero p tbl slotid seq_init = (tbl, no_fuel)
find_or_create_slot mem (suc fuel) p tbl slotid seq_init =
    let grown : SlotTable = record tbl {
      slots = tbl.slots ++ new_slot tbl.max_slots seq_init ∷ [];
      max_slots = add32 tbl.max_slots 1;
    } in
    let next = find_or_create_slot mem fuel (suc p) tbl slotid seq_init in
    let next_grown = find_or_create_slot mem fuel (suc p) grown slotid seq_init in
    elim (get_elem? tbl.slots p) [
      | some slot ↦ if slot.slot_nr == slotid then (tbl, ok p) else next
      | none ↦
          if mem tbl.max_slots
          then if tbl.max_slots == slotid then (grown, ok p) else next_grown
          else (tbl, err no_mem)
    ]

-- One round for each slot up to `slotid`, which is enough on a well-formed table.
unfoldable pub find_slot : (ℕ → Bool) → SlotTable → ℕ → ℕ → SlotTable × Found
find_slot mem tbl slotid seq_init = find_or_create_slot mem (suc slotid) 0 tbl slotid seq_init

abbrev pub slot_nr_at : List Slot → ℕ → ℕ
slot_nr_at [] p = 0
slot_nr_at (s ∷ ss) zero = s.slot_nr
slot_nr_at (s ∷ ss) (suc p) = slot_nr_at ss p

unfoldable pub lock_slot : SlotTable → ℕ → SlotTable
lock_slot tbl p =
    let slotid = slot_nr_at tbl.slots p in
    record tbl {
      used_slots = set_bit slotid tbl.used_slots;
      highest_used_slotid =
          if ltb tbl.highest_used_slotid slotid || tbl.highest_used_slotid == no_slot
          then slotid
          else tbl.highest_used_slotid;
      slots = modify tbl.slots p (λ s. record s { generation = tbl.generation });
    }

unfoldable pub try_to_lock_slot : SlotTable → ℕ → SlotTable × Bool
try_to_lock_slot tbl p =
    if tbl.used_slots (slot_nr_at tbl.slots p) then (tbl, false) else (lock_slot tbl p, true)

unfoldable pub lookup_slot : (ℕ → Bool) → SlotTable → ℕ → SlotTable × Found
lookup_slot mem tbl slotid =
    if leb slotid tbl.max_slotid then find_slot mem tbl slotid 0 else (tbl, err too_big)

abbrev pub seq_nr_at : List Slot → ℕ → ℕ
seq_nr_at [] p = 0
seq_nr_at (s ∷ ss) zero = s.seq_nr
seq_nr_at (s ∷ ss) (suc p) = seq_nr_at ss p

-- `nfs4_slot_get_seqid` and the test of the used bit, under one lock.
unfoldable pub slot_seqid_in_use : (ℕ → Bool) → SlotTable → ℕ → ℕ → SlotTable × Bool
slot_seqid_in_use mem tbl slotid seq_nr =
    let (tbl', found) = lookup_slot mem tbl slotid in
    (
      tbl',
      elim found [ ok p ↦ seq_nr_at tbl'.slots p == seq_nr && tbl'.used_slots slotid | _ ↦ false ],
    )

-- The lock taken on the slot that the walk returns.
abbrev pub lock_found : SlotTable × Found → SlotTable × Found
lock_found (tbl, ok p) = (lock_slot tbl p, ok p)
lock_found (tbl, err e) = (tbl, err e)
lock_found (tbl, no_fuel) = (tbl, no_fuel)

module _ (B : BitSearch) where
  open B use {find_first_zero_bit, find_last_bit}

  unfoldable pub free_slot : SlotTable → ℕ → SlotTable
  unfolding slot_tbl_drain_complete
  free_slot tbl p =
      let slotid = slot_nr_at tbl.slots p in
      let used = clear_bit slotid tbl.used_slots in
      let new_max = find_last_bit used slotid in
      let cleared : SlotTable = record tbl { used_slots = used } in
      if slotid == tbl.highest_used_slotid
      then if ltb new_max slotid
        then record cleared { highest_used_slotid = new_max }
        else slot_tbl_drain_complete (record cleared { highest_used_slotid = no_slot })
      else cleared

  unfoldable pub alloc_slot : (ℕ → Bool) → SlotTable → SlotTable × Found
  alloc_slot mem tbl =
      let slotid = find_first_zero_bit tbl.used_slots (add32 tbl.max_slotid 1) in
      if leb slotid tbl.max_slotid then lock_found (find_slot mem tbl slotid 1) else (tbl, err busy)

-- ===== src/Slot/Resize.antt =====
-- Setting up, resetting and resizing a slot table: mynfs/nfs4session.c.
use Prim.Native.Nat.{min}
use mynfs.Base.{
  ℕ, zero, suc, ◌+◌, ◌-◌, ◌%◌, ◌^◌, ltb, leb, ◌==◌, if◌then◌else◌, Bool, true, false, ◌||◌, Option,
  none, some, List, [], ◌∷◌, map, add32, sub32, is_neg32, is_pos32, sar1,
}
use mynfs.Slot.Kernel.{BitSearch, WaitQueue}
use mynfs.Slot.Wake.{Grant, wake_slot_table}
use mynfs.Slot.Table.{
  Slot, SlotTable, Found, ok, Errno, no_mem, shrink_slot_table, find_slot, no_slot, max_slot_table,
  max_slotid_limit,
}

-- A zeroed table after `nfs4_init_slot_table`.
unfoldable pub init_slot_table : SlotTable
init_slot_table = record {
  slots = [];
  used_slots = λ _. false;
  waitq = [];
  max_slots = 0;
  max_slotid = 0;
  highest_used_slotid = no_slot;
  target_highest_slotid = 0;
  server_highest_slotid = 0;
  d_target_highest_slotid = 0;
  d2_target_highest_slotid = 0;
  generation = 0;
  draining = false;
  completions = 0;
}

abbrev pub walk_status : SlotTable × Found → SlotTable × Option Errno
walk_status (t, ok p) = (t, none)
walk_status (t, _) = (t, some no_mem)

-- No error number stands for the status 0.
unfoldable pub grow_slot_table : (ℕ → Bool) → SlotTable → ℕ → ℕ → SlotTable × Option Errno
grow_slot_table mem tbl max_reqs ivalue =
    if leb max_reqs tbl.max_slots
    then (tbl, none)
    else walk_status (find_slot mem tbl (max_reqs - 1) ivalue)

abbrev pub reset_slot : ℕ → Slot → Slot
reset_slot ivalue s = record s {
  seq_nr = ivalue;
  seq_nr_highest_sent = ivalue;
  seq_nr_last_acked = sub32 ivalue 1;
}

unfoldable pub reset_slot_table : SlotTable → ℕ → ℕ → SlotTable
reset_slot_table tbl server_highest_slotid ivalue =
    let t = shrink_slot_table tbl (add32 server_highest_slotid 1) in
    record t {
      slots = map (reset_slot ivalue) t.slots;
      highest_used_slotid = no_slot;
      target_highest_slotid = server_highest_slotid;
      server_highest_slotid = server_highest_slotid;
      d_target_highest_slotid = 0;
      d2_target_highest_slotid = 0;
      max_slotid = server_highest_slotid;
    }

abbrev pub reset_grown : ℕ → ℕ → SlotTable × Option Errno → SlotTable × Option Errno
reset_grown max_reqs ivalue (t, some e) = (t, some e)
reset_grown max_reqs ivalue (t, none) = (reset_slot_table t (sub32 max_reqs 1) ivalue, none)

unfoldable pub realloc_slot_table : (ℕ → Bool) → SlotTable → ℕ → ℕ → SlotTable × Option Errno
realloc_slot_table mem tbl max_reqs ivalue =
    let reqs = if ltb max_slot_table max_reqs then max_slot_table else max_reqs in
    reset_grown reqs ivalue (grow_slot_table mem tbl reqs ivalue)

unfoldable pub release_slot_table : SlotTable → SlotTable
release_slot_table tbl = shrink_slot_table tbl 0

unfoldable pub setup_slot_table : (ℕ → Bool) → ℕ → SlotTable × Option Errno
setup_slot_table mem max_reqs = realloc_slot_table mem init_slot_table max_reqs 0

-- `nfs41_set_target_slotid_locked`
unfoldable pub set_target_slotid_locked : SlotTable → ℕ → SlotTable
set_target_slotid_locked tbl target =
    if tbl.target_highest_slotid == target
    then tbl
    else record tbl { target_highest_slotid = target; generation = (tbl.generation + 1) % 2 ^ 64 }

-- `nfs41_set_server_slotid_locked`
unfoldable pub set_server_slotid_locked : SlotTable → ℕ → SlotTable
set_server_slotid_locked tbl highest_slotid =
    if tbl.server_highest_slotid == highest_slotid
    then tbl
    else if ltb highest_slotid tbl.highest_used_slotid
    then tbl
    else (let t = shrink_slot_table tbl (add32 highest_slotid 1) in
        record t { server_highest_slotid = highest_slotid })

-- `nfs41_derivative_target_slotid`, on two's complement patterns.
unfoldable pub derivative_target_slotid : ℕ → ℕ → ℕ
derivative_target_slotid s1 s2 =
    let d = sub32 s1 s2 in
    if d == 0 then 0 else if is_neg32 d then sar1 (sub32 d 1) else sar1 (add32 d 1)

-- `nfs41_sign_s32`, again as a pattern: 1, -1 or 0.
abbrev pub sign_s32 : ℕ → ℕ
sign_s32 s1 = if is_pos32 s1 then 1 else if is_neg32 s1 then sub32 0 1 else 0

unfoldable pub same_sign_or_zero_s32 : ℕ → ℕ → Bool
same_sign_or_zero_s32 s1 s2 = if s1 == 0 || s2 == 0 then true else sign_s32 s1 == sign_s32 s2

unfoldable pub is_outlier_target_slotid : SlotTable → ℕ → SlotTable × Bool
is_outlier_target_slotid tbl new_target =
    let d = derivative_target_slotid new_target tbl.target_highest_slotid in
    let d2 = derivative_target_slotid d tbl.d_target_highest_slotid in
    let first = if same_sign_or_zero_s32 d tbl.d_target_highest_slotid then false else true in
    let ret = if same_sign_or_zero_s32 d2 tbl.d2_target_highest_slotid then false else first in
    (record tbl { d_target_highest_slotid = d; d2_target_highest_slotid = d2 }, ret)

-- The part of `struct nfs4_sequence_res` that sizes the table.
pub record SequenceRes : Type 0 where
  pub sr_highest_slotid : ℕ
  pub sr_target_highest_slotid : ℕ

abbrev pub generation_at : List Slot → ℕ → ℕ
generation_at [] p = 0
generation_at (s ∷ ss) zero = s.generation
generation_at (s ∷ ss) (suc p) = generation_at ss p

-- An outlier is noted in the derivatives and not taken for the target.
unfoldable pub take_target : SlotTable → ℕ → SlotTable
take_target tbl target =
    let (t, outlier) = is_outlier_target_slotid tbl target in
    if outlier then t else set_target_slotid_locked t target

-- The server's limit counts only if the slot was handed out under the present target.
unfoldable pub take_server : SlotTable → ℕ → ℕ → SlotTable
take_server tbl p highest =
    if tbl.generation == generation_at tbl.slots p
    then set_server_slotid_locked tbl highest
    else tbl

module _ (B : BitSearch) (W : WaitQueue) (mem : ℕ → Bool) (now : ℕ) where
  -- The bound that `nfs41_set_max_slotid_locked` computes.
  abbrev pub clamp_slotid : SlotTable → ℕ → ℕ
  clamp_slotid tbl target =
      let a = min (max_slot_table - 1) target in
      let b = if ltb tbl.server_highest_slotid a then tbl.server_highest_slotid else a in
      if ltb tbl.target_highest_slotid b then tbl.target_highest_slotid else b

  unfoldable pub set_max_slotid_locked : SlotTable → ℕ → SlotTable × List Grant × Bool
  set_max_slotid_locked tbl target =
      wake_slot_table B W mem now (record tbl { max_slotid = clamp_slotid tbl target })

  unfoldable pub set_target_slotid : SlotTable → ℕ → SlotTable × List Grant × Bool
  set_target_slotid tbl target =
      set_max_slotid_locked
        (record (set_target_slotid_locked tbl target) {
          d_target_highest_slotid = 0;
          d2_target_highest_slotid = 0;
        })
        target

  -- `nfs41_update_target_slotid`, on the slot at position `p`: its three steps.
  unfoldable pub update_target_slotid : SlotTable → ℕ → SequenceRes → SlotTable × List Grant × Bool
  update_target_slotid tbl p res =
      let target = min res.sr_target_highest_slotid max_slotid_limit in
      let highest = min res.sr_highest_slotid max_slotid_limit in
      set_max_slotid_locked (take_server (take_target tbl target) p highest) target

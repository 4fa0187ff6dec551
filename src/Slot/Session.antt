-- ===== src/Slot/Session.antt =====
-- The two slot tables of a session: mynfs/nfs4session.c, and CB_RECALL_SLOT of
-- mynfs/callback_proc.c.
use mynfs.Base.{ℕ, Bool, true, false, if◌then◌else◌, Option, none, some, List, [], ◌∷◌}
use mynfs.Slot.Kernel.{BitSearch, WaitQueue}
use mynfs.Slot.Table.{Slot, SlotTable, Errno}
use mynfs.Slot.Wake.{Grant}
use mynfs.Slot.Resize.{realloc_slot_table, release_slot_table, set_target_slotid}

pub record Session : Type 0 where
  pub fc_slot_table : SlotTable
  pub bc_slot_table : SlotTable
  pub fc_max_reqs : ℕ  -- fc_attrs.max_reqs
  pub bc_max_reqs : ℕ
  pub back_chan : Bool  -- SESSION4_BACK_CHAN

unfoldable pub release_session_slot_tables : Session → Session
release_session_slot_tables ses = record ses {
  fc_slot_table = release_slot_table ses.fc_slot_table;
  bc_slot_table = release_slot_table ses.bc_slot_table;
}

abbrev pub has_no_slots : List Slot → Bool
has_no_slots [] = true
has_no_slots (s ∷ ss) = false

abbrev pub back_set_up : Session → SlotTable × Option Errno → Session × Option Errno
back_set_up ses (t, none) = (record ses { bc_slot_table = t }, none)
back_set_up ses (t, some e) =
    let s : Session = record ses { bc_slot_table = t } in
    (if has_no_slots t.slots then release_session_slot_tables s else s, some e)

-- `fore` and `back` say which slots of each table can be allocated.
abbrev pub fore_set_up : (ℕ → Bool) → Session → SlotTable × Option Errno → Session × Option Errno
fore_set_up back ses (t, some e) = (record ses { fc_slot_table = t }, some e)
fore_set_up back ses (t, none) =
    let s : Session = record ses { fc_slot_table = t } in
    if ses.back_chan
    then back_set_up s (realloc_slot_table back ses.bc_slot_table ses.bc_max_reqs 0)
    else (s, none)

unfoldable pub setup_session_slot_tables :
    (ℕ → Bool) → (ℕ → Bool) → Session → Session × Option Errno
setup_session_slot_tables fore back ses =
    fore_set_up back ses (realloc_slot_table fore ses.fc_slot_table ses.fc_max_reqs 1)

-- NFS4ERR_OP_NOT_IN_SESSION and NFS4_OK, with the tasks that are woken.
pub data RecallSlot : Type 0 where
  not_in_session : RecallSlot
  recalled : SlotTable × List Grant × Bool → RecallSlot

-- `nfs4_callback_recallslot`, on the fore channel's table of the client that CB_SEQUENCE found; after
-- a recall the server is notified.
unfoldable pub callback_recallslot :
    BitSearch → WaitQueue → (ℕ → Bool) → ℕ → Option SlotTable → ℕ → RecallSlot
callback_recallslot B W mem now none target = not_in_session
callback_recallslot B W mem now (some tbl) target =
    recalled (set_target_slotid B W mem now tbl target)

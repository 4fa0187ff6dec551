-- ===== src/Callback/Examples.antt =====
-- The theorems about CB_SEQUENCE applied to a small back channel.
use mynfs.Base.{ℕ, ◌≡◌, ◌≢◌, refl, Bool, true, false, some, [], ◌∷◌, modify, add32, is_neg32, arith}
use mynfs.Slot.Table.{
  SlotTable, seq_nr_at, lookup_slot, find_slot, find_or_create_slot, lock_slot, try_to_lock_slot,
}
use mynfs.Slot.Invariant.{IsWf}
use mynfs.Slot.Small.{plenty, small_table, small_table-IsWf}
use mynfs.Callback.Sequence.{
  nfs4_ok, CbSequenceArgs, CbClient, callback_sequence, validate_seqid, referring_call_exists,
  wait_refcalls, wait_rclists,
}
use mynfs.Callback.Lookup.{referring_call_exists_nonneg}
use mynfs.Callback.Once.{
  callback_sequence_refused, callback_sequence_in_order, callback_sequence_replay,
}

abbrev patient : ℕ → ℕ → Bool
patient slotid seqid = false

abbrev impatient : ℕ → ℕ → Bool
impatient slotid seqid = true

abbrev alone : SlotTable → SlotTable
alone t = t

abbrev client : CbClient
client = record { sess_id = 4; back_chan = true; session_reset = false }

abbrev request : ℕ → CbSequenceArgs
request n = record {
  csa_sequenceid = n;
  csa_slotid = 0;
  csa_cachethis = false;
  csa_rclists = record { rcl_sessionid = 4; rcl_refcalls = (0, 9) ∷ [] } ∷ [];
}

abbrev open_table : SlotTable
open_table = record small_table { draining = false }

open_table-IsWf : IsWf open_table
open_table-IsWf = record {
  listed = record {
    numbered = small_table-IsWf.listed.numbered;
    counted = small_table-IsWf.listed.counted;
  };
  capped = small_table-IsWf.capped;
  sized = small_table-IsWf.sized;
  located = small_table-IsWf.located;
  highest = small_table-IsWf.highest;
}

-- A wait that times out is reported as if nothing was waited for.
referring_call_exists_nonneg_example :
    is_neg32 (referring_call_exists impatient 4 (request 2).csa_rclists) ≡ false
referring_call_exists_nonneg_example =
    referring_call_exists_nonneg impatient 4 (request 2).csa_rclists (omega arith)

callback_sequence_refused_example :
    let r = callback_sequence plenty patient alone (some client) (request 7) open_table in
    seq_nr_at r.tbl.slots 1 ≡ seq_nr_at open_table.slots 1
unfolding callback_sequence lookup_slot find_slot find_or_create_slot validate_seqid
callback_sequence_refused_example =
    callback_sequence_refused patient plenty alone client (request 7) (omega arith) open_table 1
      open_table-IsWf (omega arith) (λ h. absurd (cc))

callback_sequence_in_order_example :
    let r = callback_sequence plenty patient alone (some client) (request 2) open_table in
    (2 ≡ add32 (seq_nr_at open_table.slots 0) 1)
    × (open_table.used_slots 0 ≡ false)
    × (r.slot ≡ some 0)
    × (r.tbl.used_slots 0 ≡ true)
    × (seq_nr_at r.tbl.slots 0 ≡ 2)
unfolding callback_sequence lookup_slot find_slot find_or_create_slot validate_seqid
    try_to_lock_slot referring_call_exists wait_rclists wait_refcalls
callback_sequence_in_order_example =
    callback_sequence_in_order patient plenty alone client (request 2) (omega arith) open_table
      open_table-IsWf (omega arith) (λ t. omega arith) (λ t h. h) refl

-- The table after the request was answered and its slot freed.
abbrev later_table : SlotTable
later_table = record open_table { slots = modify open_table.slots 0 (λ s. record s { seq_nr = 2 }) }

later_table-IsWf : IsWf later_table
later_table-IsWf = record {
  listed = record { numbered = small_table-IsWf.listed.numbered; counted = refl };
  capped = small_table-IsWf.capped;
  sized = small_table-IsWf.sized;
  located = small_table-IsWf.located;
  highest = small_table-IsWf.highest;
}

callback_sequence_replay_example :
    let r = callback_sequence plenty patient alone (some client) (request 2) later_table in
    (r.status ≢ nfs4_ok) × (seq_nr_at r.tbl.slots 0 ≡ 2)
unfolding callback_sequence lookup_slot find_slot find_or_create_slot validate_seqid
    try_to_lock_slot lock_slot referring_call_exists wait_rclists wait_refcalls
callback_sequence_replay_example =
    callback_sequence_replay patient plenty alone client (request 2) (omega arith) open_table
      later_table open_table-IsWf (omega arith) (λ t. omega arith) (λ t h. h) refl later_table-IsWf
      (omega arith) refl

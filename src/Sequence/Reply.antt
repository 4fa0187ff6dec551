-- ===== src/Sequence/Reply.antt =====
-- The switch of `nfs41_sequence_process`, as far as it concerns the slot: mynfs/nfs4proc.c.
use mynfs.Base.{ℕ, ltb, if◌then◌else◌, Bool, true, false, not, ◌&&◌, ◌||◌, add32, sub32, is_pos32}
use mynfs.Slot.Table.{Slot}

-- `res->sr_status`: 0, 1 for an RPC level error, or an error of the server.
pub data SeqStatus : Type 0 where
  accepted rpc_error : SeqStatus
  err_delay err_retry_uncached_rep err_seq_false_retry err_badslot err_seq_misordered : SeqStatus
  err_badsession err_deadsession err_conn_not_bound : SeqStatus
  err_other : ℕ → SeqStatus

-- What the reply's code reads of the `rpc_task`; the last two are the answers of
-- `rpc_restart_call_prepare` and `rpc_restart_call`.
pub record SeqTask : Type 0 where
  pub was_sent : Bool
  pub tk_deadsession : Bool  -- tk_status is -NFS4ERR_DEADSESSION
  pub is_sequence_op : Bool  -- rpc_proc is NFSPROC4_CLNT_SEQUENCE
  pub restart_prepare_ok : Bool
  pub restart_ok : Bool

-- Where the code goes after the switch.
pub data Verdict : Type 0 where
  noted : Verdict  -- out, after the reply was accepted
  out : Verdict
  out_retry : Verdict
  retry_nowait : Verdict
  probed_retry_nowait : Verdict  -- the slot went to a lone SEQUENCE
  session_recover : SeqStatus → Verdict

unfoldable pub sequence_record_sent : Slot → ℕ → Slot
sequence_record_sent s seqnr =
    if is_pos32 (sub32 seqnr s.seq_nr_highest_sent)
    then record s { seq_nr_highest_sent = seqnr }
    else s

unfoldable pub sequence_acked : Slot → ℕ → Slot
unfolding sequence_record_sent
sequence_acked s seqnr = record (sequence_record_sent s seqnr) { seq_nr_last_acked = seqnr }

-- `(s32)w > 1`
abbrev pub is_above_one : ℕ → Bool
is_above_one w = is_pos32 w && ltb 1 w

abbrev pub misordered : SeqTask → Slot → Slot × Verdict
misordered task s =
    if is_above_one (sub32 s.seq_nr s.seq_nr_last_acked)
    then (
      record s { seq_nr = sub32 s.seq_nr 1 },
      if task.is_sequence_op then retry_nowait else probed_retry_nowait,
    )
    else (record s { seq_nr = s.seq_nr_highest_sent }, out_retry)

-- The switch, with `target` the table's `target_highest_slotid`.
unfoldable pub sequence_switch : SeqStatus → SeqTask → ℕ → Slot → Slot × Verdict
unfolding sequence_acked
sequence_switch accepted task target s =
    (record (sequence_acked s s.seq_nr) { seq_done = true }, noted)
sequence_switch rpc_error task target s =
    (record (sequence_record_sent s s.seq_nr) { seq_done = true }, out)
sequence_switch err_delay task target s = (s, out_retry)
sequence_switch err_retry_uncached_rep task target s =
    (record (sequence_acked s s.seq_nr) { seq_nr = add32 s.seq_nr 1 }, retry_nowait)
sequence_switch err_seq_false_retry task target s =
    (record (sequence_acked s s.seq_nr) { seq_nr = add32 s.seq_nr 1 }, retry_nowait)
sequence_switch err_badslot task target s =
    (s, if ltb s.slot_nr target then session_recover err_badslot else retry_nowait)
sequence_switch err_seq_misordered task target s = misordered task (sequence_record_sent s s.seq_nr)
sequence_switch err_badsession task target s = (s, session_recover err_badsession)
sequence_switch err_deadsession task target s = (s, session_recover err_deadsession)
sequence_switch err_conn_not_bound task target s = (s, session_recover err_conn_not_bound)
sequence_switch (err_other e) task target s = (record s { seq_done = true }, out)

-- The tests before the switch, and the status that it looks at.
unfoldable pub sequence_reply : SeqStatus → SeqTask → ℕ → Slot → Slot × Verdict
unfolding sequence_switch
sequence_reply status task target s =
    if not task.was_sent || s.seq_done
    then (s, out)
    else sequence_switch (if task.tk_deadsession then err_deadsession else status) task target s

-- The head of `nfs41_release_slot`.
unfoldable pub bump_slot : Slot → Slot
bump_slot s = record s {
  seq_nr = if s.seq_done then add32 s.seq_nr 1 else s.seq_nr;
  seq_done = false;
}

-- ===== src/Callback/Sequence.antt =====
-- CB_SEQUENCE: `validate_seqid`, `referring_call_exists` and `nfs4_callback_sequence` of
-- mynfs/callback_proc.c, on the back channel's slot table.
use mynfs.Base.{
  ℕ, ltb, ◌==◌, if◌then◌else◌, Bool, true, false, Option, none, some, List, [], ◌∷◌, modify, add32,
  is_neg32,
}
use mynfs.Slot.Table.{
  SlotTable, Found, ok, err, no_fuel, lookup_slot, try_to_lock_slot, seq_nr_at, slot_nr_at,
}

pub data CbStatus : Type 0 where
  nfs4_ok err_badsession err_delay err_badslot err_retry_uncached_rep : CbStatus
  err_seq_false_retry err_seq_misordered err_rep_too_big_to_cache : CbStatus

pub record ReferringCallList : Type 0 where
  pub rcl_sessionid : ℕ
  pub rcl_refcalls : List (ℕ × ℕ)  -- rc_slotid and rc_sequenceid

pub record CbSequenceArgs : Type 0 where
  pub csa_sequenceid : ℕ
  pub csa_slotid : ℕ
  pub csa_cachethis : Bool
  pub csa_rclists : List ReferringCallList

-- What the call finds of the client that `nfs4_find_client_sessionid` returns.
pub record CbClient : Type 0 where
  pub sess_id : ℕ
  pub back_chan : Bool  -- SESSION4_BACK_CHAN
  pub session_reset : Bool  -- NFS4CLNT_SESSION_RESET

unfoldable pub validate_seqid : SlotTable → ℕ → CbSequenceArgs → CbStatus
validate_seqid tbl p args =
    if ltb tbl.server_highest_slotid args.csa_slotid
    then err_badslot
    else if args.csa_sequenceid == seq_nr_at tbl.slots p
    then if tbl.used_slots (slot_nr_at tbl.slots p)
      then err_delay
      else if args.csa_cachethis
      then err_seq_false_retry
      else err_retry_uncached_rep
    else if args.csa_sequenceid == add32 (seq_nr_at tbl.slots p) 1
    then nfs4_ok
    else err_seq_misordered

-- `times_out slotid seqid` is whether `nfs4_slot_wait_on_seqid` returns -ETIMEDOUT. The inner loop
-- returns the status, which is the value of a comparison, and the count of calls waited for.
module _ (times_out : ℕ → ℕ → Bool) where
  unfoldable pub wait_refcalls : List (ℕ × ℕ) → ℕ → ℕ × ℕ
  wait_refcalls [] found = (0, found)
  wait_refcalls ((slotid, seqid) ∷ refs) found =
      let rest = wait_refcalls refs (add32 found 1) in
      if times_out slotid seqid then (1, found) else rest

  unfoldable pub wait_rclists : ℕ → List ReferringCallList → ℕ → ℕ × ℕ
  wait_rclists sess_id [] found = (0, found)
  wait_rclists sess_id (l ∷ ls) found =
      let waited = wait_refcalls l.rcl_refcalls found in
      let next = wait_rclists sess_id ls found in
      let after = wait_rclists sess_id ls waited.1 in
      if l.rcl_sessionid == sess_id then if waited.0 == 0 then after else waited else next

  -- The int that is returned, as a pattern.
  unfoldable pub referring_call_exists : ℕ → List ReferringCallList → ℕ
  referring_call_exists sess_id rclists =
      let (status, found) = wait_rclists sess_id rclists 0 in
      if is_neg32 status then status else found

-- What the call leaves: the table, the status before it is reported, and `cps->slot` and
-- `cps->referring_calls`.
pub record CbState : Type 0 where
  pub tbl : SlotTable
  pub status : CbStatus
  pub slot : Option ℕ
  pub referring_calls : ℕ

abbrev pub stop : SlotTable → CbStatus → Option ℕ → CbState
stop t status slot = record { tbl = t; status = status; slot = slot; referring_calls = 0 }

module _ (mem : ℕ → Bool) (times_out : ℕ → ℕ → Bool) (others : SlotTable → SlotTable) where
  -- From the lock that was taken on; `others` is what other threads do to the table while the lock is
  -- dropped to wait.
  abbrev pub sequence_locked : CbClient → CbSequenceArgs → ℕ → SlotTable × Bool → CbState
  sequence_locked clp args p (t, false) = stop t err_delay none
  sequence_locked clp args p (t, true) =
      if args.csa_cachethis
      then stop t err_rep_too_big_to_cache (some p)
      else (let ret = referring_call_exists times_out clp.sess_id args.csa_rclists in
          let t' = others t in
          if is_neg32 ret then stop t' err_delay (some p) else record {
            tbl = record t' {
              slots = modify t'.slots p (λ s. record s { seq_nr = args.csa_sequenceid });
            };
            status = nfs4_ok;
            slot = some p;
            referring_calls = ret;
          })

  abbrev pub sequence_validated : CbClient → CbSequenceArgs → SlotTable → ℕ → CbStatus → CbState
  sequence_validated clp args t p nfs4_ok = sequence_locked clp args p (try_to_lock_slot t p)
  sequence_validated clp args t p err_badsession = stop t err_badsession none
  sequence_validated clp args t p err_delay = stop t err_delay none
  sequence_validated clp args t p err_badslot = stop t err_badslot none
  sequence_validated clp args t p err_retry_uncached_rep = stop t err_retry_uncached_rep none
  sequence_validated clp args t p err_seq_false_retry = stop t err_seq_false_retry none
  sequence_validated clp args t p err_seq_misordered = stop t err_seq_misordered none
  sequence_validated clp args t p err_rep_too_big_to_cache = stop t err_rep_too_big_to_cache none

  abbrev pub sequence_found : CbClient → CbSequenceArgs → SlotTable × Found → CbState
  sequence_found clp args (t, ok p) = sequence_validated clp args t p (validate_seqid t p args)
  sequence_found clp args (t, err e) = stop t err_badslot none
  sequence_found clp args (t, no_fuel) = stop t err_badslot none

  unfoldable pub callback_sequence : Option CbClient → CbSequenceArgs → SlotTable → CbState
  callback_sequence none args tbl = stop tbl err_badsession none
  callback_sequence (some clp) args tbl =
      if clp.back_chan
      then if tbl.draining
        then stop tbl (if clp.session_reset then err_badsession else err_delay) none
        else sequence_found clp args (lookup_slot mem tbl args.csa_slotid)
      else stop tbl err_badsession none

-- The end of the call: what it returns, `cps->drc_status` and `res->csr_status`.
pub record CbReport : Type 0 where
  pub returned : CbStatus
  pub drc_status : Option CbStatus
  pub csr_status : Option CbStatus

unfoldable pub report : CbStatus → CbReport
report err_retry_uncached_rep = record {
  returned = nfs4_ok;
  drc_status = some err_retry_uncached_rep;
  csr_status = none;
}
report status = record { returned = status; drc_status = none; csr_status = some status }

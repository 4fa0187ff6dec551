-- ===== src/Sequence/Task.antt =====
-- Getting a slot for a task, and the whole of the reply's handling: mynfs/nfs4proc.c.
use mynfs.Base.{
  ℕ, zero, suc, ltb, ◌==◌, if◌then◌else◌, Bool, true, false, not, ◌&&◌, Option, none, some, List,
  [], ◌∷◌, ◌++◌, map, modify,
}
use mynfs.Slot.Kernel.{BitSearch, WaitQueue, Task}
use mynfs.Slot.Table.{
  Slot, SlotTable, Found, ok, err, no_mem, new_slot, no_slot, alloc_slot, free_slot,
}
use mynfs.Slot.Wake.{Grant, wake_and_assign_slot}
use mynfs.Slot.Resize.{SequenceRes, update_target_slotid}
use mynfs.Sequence.Reply.{
  SeqStatus, rpc_error, SeqTask, Verdict, noted, out, out_retry, retry_nowait, probed_retry_nowait,
  session_recover, sequence_reply, bump_slot,
}

abbrev pub slot_at : List Slot → ℕ → Slot
slot_at [] p = new_slot 0 0
slot_at (s ∷ ss) zero = s
slot_at (s ∷ ss) (suc p) = slot_at ss p

-- What the code asks of other parts of the client, of the RPC layer and of the waiters.
pub data Effect : Type 0 where
  renew_lease : ℕ → Effect  -- do_renew_lease
  sequence_flags : ℕ → Bool → Effect  -- nfs41_handle_sequence_flag_errors
  schedule_session_recovery : SeqStatus → Effect
  probe_sequence notify_server wake_waiters delay_call clear_tk_status : Effect
  granted : Grant → Effect

-- `struct nfs4_sequence_res`, but for the slot.
pub record Res : Type 0 where
  pub sr_status : SeqStatus
  pub sr_timestamp : ℕ
  pub sr_status_flags : ℕ
  pub sr_sizes : SequenceRes

-- The slot table of the session, and the task's hold on a slot of it.
pub record World : Type 0 where
  pub tbl : SlotTable
  pub sr_slot : Option ℕ
  pub effects : List Effect  -- in order

abbrev pub emit : World → Effect → World
emit w e = record w { effects = w.effects ++ e ∷ [] }

abbrev pub on_slot : SlotTable → ℕ → (Slot → Slot) → SlotTable
on_slot tbl p f = record tbl { slots = modify tbl.slots p f }

module _ (B : BitSearch) (W : WaitQueue) (mem : ℕ → Bool) (now : ℕ) where
  -- `nfs41_release_slot`; `watched` is `waitqueue_active(&tbl->slot_waitq)`.
  abbrev pub release_offer : Bool → World → ℕ → SlotTable × Option Grant → World
  release_offer send w p (t, some g) = emit (record w { tbl = t }) (granted g)
  release_offer send w p (t, none) =
      let t' = free_slot B t p in
      if send && t'.highest_used_slotid == no_slot
      then emit (record w { tbl = t' }) notify_server
      else record w { tbl = t' }

  unfoldable pub release_slot : Bool → World → ℕ → World
  release_slot watched w p =
      let t = on_slot w.tbl p bump_slot in
      let send = ltb t.target_highest_slotid t.highest_used_slotid in
      let w' = release_offer send w p (wake_and_assign_slot W now t p) in
      if watched then emit w' wake_waiters else w'

  -- `nfs41_sequence_free_slot`
  abbrev pub free_held : Bool → World → Option ℕ → World
  free_held watched w none = record w { sr_slot = none }
  free_held watched w (some p) = record (release_slot watched w p) { sr_slot = none }

  unfoldable pub sequence_free_slot : Bool → World → World
  sequence_free_slot watched w = free_held watched w w.sr_slot

  -- The grants of the tasks that an update of the table wakes.
  abbrev pub resized : World → SlotTable × List Grant × Bool → World
  resized w (t, gs, done) = record w { tbl = t; effects = w.effects ++ map granted gs }

  -- The labels behind the switch of `nfs41_sequence_process`; true is the return value 1.
  abbrev pub conclude : Bool → SeqTask → Res → World → ℕ → Slot → Verdict → World × Bool
  conclude watched task res w p s noted =
      let w' =
        emit (emit w (renew_lease res.sr_timestamp))
          (sequence_flags res.sr_status_flags s.privileged) in
      (resized w' (update_target_slotid B W mem now w.tbl p res.sr_sizes), true)
  conclude watched task res w p s out = (w, true)
  conclude watched task res w p s out_retry =
      if task.restart_ok then (emit w delay_call, false) else (w, true)
  conclude watched task res w p s retry_nowait =
      if task.restart_prepare_ok
      then (emit (sequence_free_slot watched w) clear_tk_status, false)
      else (w, true)
  conclude watched task res w p s probed_retry_nowait =
      let w' = emit (record w { sr_slot = none }) probe_sequence in
      if task.restart_prepare_ok
      then (emit (sequence_free_slot watched w') clear_tk_status, false)
      else (w', true)
  conclude watched task res w p s (session_recover status) =
      let w' =
        emit (record w { tbl = record w.tbl { draining = true } })
          (schedule_session_recovery status) in
      (sequence_free_slot watched w', true)

  abbrev pub process_held : Bool → SeqTask → Res → World → Option ℕ → World × Bool
  process_held watched task res w none = (w, true)
  process_held watched task res w (some p) =
      let target = w.tbl.target_highest_slotid in
      let reply : Slot → Slot × Verdict = sequence_reply res.sr_status task target in
      let (s, verdict) = reply (slot_at w.tbl.slots p) in
      conclude watched task res (record w { tbl = on_slot w.tbl p (λ s. (reply s).0) }) p s verdict

  unfoldable pub sequence_process : Bool → SeqTask → Res → World → World × Bool
  sequence_process watched task res w = process_held watched task res w w.sr_slot

  abbrev pub done_processed : Bool → World × Bool → World × Bool
  done_processed watched (w, false) = (w, false)
  done_processed watched (w, true) = (sequence_free_slot watched w, true)

  -- `mynfs41_sequence_done`; freeing where no slot is held changes nothing.
  unfoldable pub sequence_done : Bool → SeqTask → Res → World → World × Bool
  sequence_done watched task res w = done_processed watched (sequence_process watched task res w)

-- The answers of `mynfs4_setup_sequence`: the call starts, with what `nfs41_sequence_res_init` writes
-- to its result, or sleeps on the table's queue, with or without a timeout of a quarter of a second.
pub data Setup : Type 0 where
  started : (sr_timestamp sr_status_flags : ℕ) → SeqStatus → Setup
  asleep asleep_timeout : Setup

module _ (B : BitSearch) (W : WaitQueue) (mem : ℕ → Bool) (now : ℕ) (task : Task) where
  abbrev pub start : World → World × Setup
  start w = (w, started now 0 rpc_error)

  abbrev pub sleep : SlotTable → SlotTable
  sleep t = record t { waitq = W.rpc_sleep_on t.waitq task }

  -- `nfs4_sequence_attach_slot` on the slot found, or sleep.
  abbrev pub attach : World → SlotTable × Found → World × Setup
  attach w (t, ok p) = start (record w {
    tbl = on_slot t p (λ s. record s { privileged = task.sa_privileged });
    sr_slot = some p;
  })
  attach w (t, err no_mem) = (record w { tbl = sleep t }, asleep_timeout)
  attach w (t, _) = (record w { tbl = sleep t }, asleep)

  abbrev pub setup_held : World → Option ℕ → World × Setup
  setup_held w (some p) = start w
  setup_held w none =
      if w.tbl.draining && not task.sa_privileged
      then (record w { tbl = sleep w.tbl }, asleep)
      else attach w (alloc_slot B mem w.tbl)

  unfoldable pub setup_sequence : World → World × Setup
  setup_sequence w = setup_held w w.sr_slot

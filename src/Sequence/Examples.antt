-- ===== src/Sequence/Examples.antt =====
-- The theorems about SEQUENCE applied to a small session.
use mynfs.Base.{
  ℕ, List, refl, true, false, some, none, inl, [], ◌∷◌, ◌≡◌, add32, sub32, is_pos32, arith,
}
use mynfs.Slot.Kernel.{Task}
use mynfs.Slot.Table.{Slot, new_slot}
use mynfs.Slot.Concrete.{bit_search, wait_queue}
use mynfs.Slot.Small.{plenty, fresh, small_table, small_table-IsWf}
use mynfs.Sequence.Reply.{
  SeqStatus, SeqTask, accepted, sequence_acked, sequence_record_sent, sequence_reply,
  sequence_switch, bump_slot, rpc_error, err_badsession, err_seq_misordered,
}
use mynfs.Sequence.Task.{World, Res, asleep, sequence_done, setup_sequence}
use mynfs.Sequence.Numbers.{
  replies, misordered_replies, acknowledged, after_reply, AllBefore, replies_never_reuse,
  misordered_resync,
}
use mynfs.Sequence.Done.{IsSound, sequence_done-IsSound}
use mynfs.Sequence.Setup.{SetupPost, setup_sequence-IsSound}
use mynfs.Sequence.Recovery.{session_error_blocks}

abbrev call : SeqTask
call = record {
  was_sent = true;
  tk_deadsession = false;
  is_sequence_op = true;
  restart_prepare_ok = true;
  restart_ok = true;
}

abbrev answered : Res
answered = record {
  sr_status = err_badsession;
  sr_timestamp = 5;
  sr_status_flags = 0;
  sr_sizes = record { sr_highest_slotid = 1; sr_target_highest_slotid = 9 };
}

-- The call holds slot 1.
abbrev holding : World
holding = record { tbl = small_table; sr_slot = some 1; effects = [] }

abbrev waiting : World
waiting = record { tbl = small_table; sr_slot = none; effects = [] }

holding-IsSound : IsSound holding
holding-IsSound = record { wf = small_table-IsWf; held = refl }

waiting-IsSound : IsSound waiting
waiting-IsSound = record { wf = small_table-IsWf; held = tt }

-- Three calls were interrupted; the server knows of none of them.
abbrev interrupted : Slot
interrupted = record (fresh 1) { seq_nr = 5; seq_nr_highest_sent = 4; seq_nr_last_acked = 1 }

-- A call accepted, one interrupted, two answers that the number is out of order, and a call accepted.
abbrev history : List (SeqStatus × SeqTask × ℕ)
history =
    (accepted, call, 3)
    ∷ (rpc_error, call, 3)
    ∷ (err_seq_misordered, call, 3)
    ∷ (err_seq_misordered, call, 3)
    ∷ (accepted, call, 3)
    ∷ []

-- The server took the numbers 1 and 3.
acknowledged-history : acknowledged history (new_slot 1 1) ≡ 1 ∷ 3 ∷ []
unfolding after_reply sequence_reply sequence_switch bump_slot new_slot sequence_acked
    sequence_record_sent
acknowledged-history = refl

replies_never_reuse_example :
    let s = replies history (new_slot 1 1) in
    AllBefore s.seq_nr (1 ∷ 3 ∷ []) × (is_pos32 (sub32 s.seq_nr s.seq_nr_last_acked) ≡ true)
unfolding after_reply sequence_reply sequence_switch bump_slot new_slot sequence_acked
    sequence_record_sent
replies_never_reuse_example = replies_never_reuse 1 1 history (omega arith) (omega arith)

misordered_resync_example :
    (replies (misordered_replies call 3 3) interrupted).seq_nr
    ≡ add32 interrupted.seq_nr_last_acked 1
misordered_resync_example =
    misordered_resync 3 call 3 interrupted refl refl refl (omega arith) (omega arith) (omega arith)
      refl

sequence_done-IsSound_example :
    let (w, finished) = sequence_done bit_search wait_queue plenty 0 true call answered holding in
    IsSound w × (finished ≡ true → w.sr_slot ≡ none)
sequence_done-IsSound_example =
    sequence_done-IsSound bit_search wait_queue plenty 0 true call answered holding holding-IsSound

abbrev privileged_task : Task
privileged_task = record { task_id = 3; sa_privileged = true }

setup_sequence-IsSound_example :
    let r = setup_sequence bit_search wait_queue plenty 0 privileged_task waiting in
    IsSound r.0 × SetupPost bit_search wait_queue plenty 0 privileged_task waiting r
setup_sequence-IsSound_example =
    setup_sequence-IsSound bit_search wait_queue plenty 0 privileged_task waiting waiting-IsSound

session_error_blocks_example :
    let (w, finished) = sequence_done bit_search wait_queue plenty 0 true call answered holding in
    (finished ≡ true)
    × (w.tbl.draining ≡ true)
    × (w.sr_slot ≡ none)
    × ((t : Task)
        → t.sa_privileged ≡ false
        → (setup_sequence bit_search wait_queue plenty 0 t w).1 ≡ asleep)
session_error_blocks_example =
    session_error_blocks bit_search wait_queue plenty 0 true call answered holding 1 refl (inl refl)
      refl refl

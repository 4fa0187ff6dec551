-- ===== src/Sequence/Done.antt =====
-- A task holds its slot from `mynfs4_setup_sequence` until `mynfs41_sequence_done`.
use mynfs.Base.{
  ℕ, ltb, ◌≡◌, refl, ◌==◌, Bool, true, false, not, ◌&&◌, ◌||◌, Option, none, some, length-modify,
  Bool-cases, inl, inr, arith,
}
use mynfs.Slot.Kernel.{BitSearch, WaitQueue}
use mynfs.Slot.Invariant.{IsWf, Numbered-modify, free_slot-IsWf}
use mynfs.Slot.Wake.{Grant, wake_and_assign_slot}
use mynfs.Slot.Wakeups.{wake_and_assign_slot-IsWf}
use mynfs.Slot.Sizes.{update_target_slotid-IsSized}
use mynfs.Slot.Table.{Slot, SlotTable, free_slot, no_slot}
use mynfs.Sequence.Reply.{
  SeqStatus, SeqTask, Verdict, noted, out, out_retry, retry_nowait, probed_retry_nowait,
  session_recover, sequence_reply, sequence_switch, bump_slot,
}
use mynfs.Sequence.Task.{
  World, Res, Effect, delay_call, clear_tk_status, probe_sequence, schedule_session_recovery, emit,
  on_slot, slot_at, release_slot, release_offer, free_held, sequence_free_slot, conclude,
  process_held, sequence_process, done_processed, sequence_done,
}

pub on_slot-IsWf :
    (tbl : SlotTable) (p : ℕ) (f : Slot → Slot)
    → ((s : Slot) → (f s).slot_nr ≡ s.slot_nr)
    → IsWf tbl
    → IsWf (on_slot tbl p f)
on_slot-IsWf tbl p f k v = record {
  listed = record {
    numbered = Numbered-modify 0 tbl.slots p f k v.listed.numbered;
    counted = omega (arith, v.listed.counted, length-modify tbl.slots p f);
  };
  capped = v.capped;
  sized = v.sized;
  located = v.located;
  highest = v.highest;
}

bump_slot-slot_nr : (s : Slot) → (bump_slot s).slot_nr ≡ s.slot_nr
unfolding bump_slot
bump_slot-slot_nr s = refl

sequence_switch-slot_nr :
    (status : SeqStatus) (task : SeqTask) (target : ℕ) (s : Slot)
    → (sequence_switch status task target s).0.slot_nr ≡ s.slot_nr
unfolding sequence_switch
sequence_switch-slot_nr status task target s = ground arith

sequence_reply-slot_nr :
    (status : SeqStatus) (task : SeqTask) (target : ℕ) (s : Slot)
    → (sequence_reply status task target s).0.slot_nr ≡ s.slot_nr
unfolding sequence_reply
sequence_reply-slot_nr status task target s = elim (Bool-cases (not task.was_sent || s.seq_done)) [
  | inl e ↦ rw e refl
  | inr e ↦ rw e (sequence_switch-slot_nr _ task target s)
]

-- The slot that a task holds is in use.
abbrev pub IsHeld : SlotTable → Option ℕ → Type 0
IsHeld tbl none = Unit {0}
IsHeld tbl (some p) = tbl.used_slots p ≡ true

pub record IsSound (w : World) : Type 0 where
  pub wf : IsWf w.tbl
  pub held : IsHeld w.tbl w.sr_slot

module _ (B : BitSearch) (W : WaitQueue) (mem : ℕ → Bool) (now : ℕ) where
  release_offer-IsWf :
      (send : Bool) (w : World) (p : ℕ) (r : SlotTable × Option Grant)
      → IsWf r.0
      → r.0.used_slots p ≡ true
      → IsWf (release_offer B W mem now send w p r).tbl
  release_offer-IsWf send w p (t, some g) v u = v
  release_offer-IsWf send w p (t, none) v u =
      elim (Bool-cases (send && (free_slot B t p).highest_used_slotid == no_slot)) [
        | inl e ↦ rw e (free_slot-IsWf B t p v u)
        | inr e ↦ rw e (free_slot-IsWf B t p v u)
      ]

  release_slot-IsWf :
      (watched : Bool) (w : World) (p : ℕ)
      → IsWf w.tbl
      → w.tbl.used_slots p ≡ true
      → IsWf (release_slot B W mem now watched w p).tbl
  unfolding release_slot
  release_slot-IsWf watched w p v u =
      let t = on_slot w.tbl p bump_slot in
      let (v', e) =
        wake_and_assign_slot-IsWf B W mem now t p
          (on_slot-IsWf w.tbl p bump_slot bump_slot-slot_nr v) in
      let offered =
        release_offer-IsWf (ltb t.target_highest_slotid t.highest_used_slotid) w p
          (wake_and_assign_slot W now t p) v' (rw e u) in
      elim (Bool-cases watched) [ inl c ↦ rw c offered | inr c ↦ rw c offered ]

  free_held-IsSound :
      (watched : Bool) (w : World) (h : Option ℕ)
      → IsWf w.tbl
      → IsHeld w.tbl h
      → IsSound (free_held B W mem now watched w h)
  free_held-IsSound watched w none v u = record { wf = v; held = tt }
  free_held-IsSound watched w (some p) v u = record {
    wf = release_slot-IsWf watched w p v u;
    held = tt;
  }

  -- Giving the slot back is sound, and leaves the task with none.
  sequence_free_slot-IsSound :
      (watched : Bool) (w : World) → IsSound w → IsSound (sequence_free_slot B W mem now watched w)
  unfolding sequence_free_slot
  sequence_free_slot-IsSound watched w v = free_held-IsSound watched w w.sr_slot v.wf v.held

  free_held-none :
      (watched : Bool) (w : World) (h : Option ℕ)
      → (free_held B W mem now watched w h).sr_slot ≡ none
  free_held-none watched w none = refl
  free_held-none watched w (some p) = refl

  sequence_free_slot-none :
      (watched : Bool) (w : World) → (sequence_free_slot B W mem now watched w).sr_slot ≡ none
  unfolding sequence_free_slot
  sequence_free_slot-none watched w = free_held-none watched w w.sr_slot

  emit-IsSound : (w : World) (e : Effect) → IsSound w → IsSound (emit w e)
  emit-IsSound w e v = record { wf = v.wf; held = v.held }

  draining-IsSound :
      (w : World) → IsSound w → IsSound (record w { tbl = record w.tbl { draining = true } })
  draining-IsSound w v = record {
    wf = record {
      listed = record { numbered = v.wf.listed.numbered; counted = v.wf.listed.counted };
      capped = v.wf.capped;
      sized = v.wf.sized;
      located = v.wf.located;
      highest = v.wf.highest;
    };
    held = v.held;
  }

  conclude-IsSound :
      (watched : Bool) (task : SeqTask) (res : Res) (w : World) (p : ℕ) (s : Slot) (d : Verdict)
      → IsSound w
      → w.sr_slot ≡ some p
      → IsSound (conclude B W mem now watched task res w p s d).0
  conclude-IsSound watched task res w p s noted v e =
      let (v', _, _, _, used) =
        update_target_slotid-IsSized B W mem now w.tbl p res.sr_sizes v.wf in
      record { wf = v'; held = rw e (used p (rw e at v.held)) }
  conclude-IsSound watched task res w p s out v e = v
  conclude-IsSound watched task res w p s out_retry v e = elim (Bool-cases task.restart_ok) [
    | inl c ↦ rw c (emit-IsSound w delay_call v)
    | inr c ↦ rw c v
  ]
  conclude-IsSound watched task res w p s retry_nowait v e =
      elim (Bool-cases task.restart_prepare_ok) [
        | inl c ↦ rw c (emit-IsSound _ clear_tk_status (sequence_free_slot-IsSound watched w v))
        | inr c ↦ rw c v
      ]
  conclude-IsSound watched task res w p s probed_retry_nowait v e =
      let w' = emit (record w { sr_slot = none }) probe_sequence in
      let v' : IsSound w' = record { wf = v.wf; held = tt } in
      elim (Bool-cases task.restart_prepare_ok) [
        | inl c ↦ rw c (emit-IsSound _ clear_tk_status (sequence_free_slot-IsSound watched w' v'))
        | inr c ↦ rw c v'
      ]
  conclude-IsSound watched task res w p s (session_recover status) v e =
      sequence_free_slot-IsSound watched _
        (emit-IsSound _ (schedule_session_recovery status) (draining-IsSound w v))

  process_held-IsSound :
      (watched : Bool) (task : SeqTask) (res : Res) (w : World) (h : Option ℕ)
      → IsSound w
      → w.sr_slot ≡ h
      → IsSound (process_held B W mem now watched task res w h).0
  process_held-IsSound watched task res w none v e = v
  process_held-IsSound watched task res w (some p) v e =
      let target = w.tbl.target_highest_slotid in
      let r = sequence_reply res.sr_status task target (slot_at w.tbl.slots p) in
      conclude-IsSound watched task res _ p r.0 r.1
        (record {
          wf = on_slot-IsWf w.tbl p _ (sequence_reply-slot_nr res.sr_status task target) v.wf;
          held = v.held;
        })
        e

  done_processed-IsSound :
      (watched : Bool) (r : World × Bool)
      → IsSound r.0
      → IsSound (done_processed B W mem now watched r).0
        × ((done_processed B W mem now watched r).1 ≡ true
            → (done_processed B W mem now watched r).0.sr_slot ≡ none)
  done_processed-IsSound watched (w, false) v = (v, λ h. absurd (cc))
  done_processed-IsSound watched (w, true) v =
      (sequence_free_slot-IsSound watched w v, λ _. sequence_free_slot-none watched w)

  -- Whatever the reply is, handling it keeps the slot table's invariant, and the slot that the task
  -- still holds is in use; where the call is finished (the answer is 1) the task holds none.
  pub sequence_done-IsSound :
      (watched : Bool) (task : SeqTask) (res : Res) (w : World)
      → IsSound w
      → let (w', finished) = sequence_done B W mem now watched task res w in
        IsSound w' × (finished ≡ true → w'.sr_slot ≡ none)
  unfolding sequence_done sequence_process
  sequence_done-IsSound watched task res w v =
      done_processed-IsSound watched (process_held B W mem now watched task res w w.sr_slot)
        (process_held-IsSound watched task res w w.sr_slot v refl)

-- ===== src/Sequence/Recovery.antt =====
-- A session error closes the table to ordinary calls until the state manager has recovered it.
use mynfs.Base.{
  ℕ, ltb, ◌≡◌, refl, if◌then◌else◌, Bool, true, false, Option, none, some, ◌⊎◌, arith, ◌∙◌, ap, sym,
  subst,
}
use mynfs.Slot.Kernel.{BitSearch, WaitQueue, Task}
use mynfs.Slot.Wake.{Grant, wake_and_assign_slot, assign_first}
use mynfs.Slot.Table.{Slot, SlotTable, free_slot}
use mynfs.Sequence.Reply.{
  SeqStatus, SeqTask, session_recover, sequence_reply, sequence_switch, bump_slot, err_badsession,
  err_deadsession, err_conn_not_bound,
}
use mynfs.Sequence.Task.{
  World, Res, on_slot, slot_at, release_slot, release_offer, free_held, sequence_free_slot,
  process_held, sequence_process, done_processed, sequence_done, asleep, setup_sequence, setup_held,
}

module _ (B : BitSearch) (W : WaitQueue) (mem : ℕ → Bool) (now : ℕ) where
  free_slot-draining : (t : SlotTable) (p : ℕ) → (free_slot B t p).draining ≡ t.draining
  unfolding free_slot
  free_slot-draining t p = ground arith

  wake-draining : (t : SlotTable) (p : ℕ) → (wake_and_assign_slot W now t p).0.draining ≡ t.draining
  unfolding wake_and_assign_slot assign_first
  wake-draining t p = ground arith

  release_offer-draining :
      (send : Bool) (w : World) (p : ℕ) (r : SlotTable × Option Grant)
      → (release_offer B W mem now send w p r).tbl.draining ≡ r.0.draining
  release_offer-draining send w p (t, some g) = refl
  release_offer-draining send w p (t, none) = ground (arith, free_slot-draining t p)

  release_slot-draining :
      (watched : Bool) (w : World) (p : ℕ)
      → (release_slot B W mem now watched w p).tbl.draining ≡ w.tbl.draining
  unfolding release_slot
  release_slot-draining watched w p =
      let t = on_slot w.tbl p bump_slot in
      let r = wake_and_assign_slot W now t p in
      ground (
        arith,
        release_offer-draining (ltb t.target_highest_slotid t.highest_used_slotid) w p r,
        wake-draining t p,
      )

  free_held-draining :
      (watched : Bool) (w : World) (h : Option ℕ)
      → (free_held B W mem now watched w h).tbl.draining ≡ w.tbl.draining
  free_held-draining watched w none = refl
  free_held-draining watched w (some p) = release_slot-draining watched w p

  sequence_free_slot-draining :
      (watched : Bool) (w : World)
      → (sequence_free_slot B W mem now watched w).tbl.draining ≡ w.tbl.draining
  unfolding sequence_free_slot
  sequence_free_slot-draining watched w = free_held-draining watched w w.sr_slot

  free_held-none :
      (watched : Bool) (w : World) (h : Option ℕ)
      → (free_held B W mem now watched w h).sr_slot ≡ none
  free_held-none watched w none = refl
  free_held-none watched w (some p) = refl

  sequence_free_slot-none :
      (watched : Bool) (w : World) → (sequence_free_slot B W mem now watched w).sr_slot ≡ none
  unfolding sequence_free_slot
  sequence_free_slot-none watched w = free_held-none watched w w.sr_slot

  abbrev pub IsSessionError : SeqStatus → Type 0
  IsSessionError status =
      (status ≡ err_badsession) ⊎ (status ≡ err_deadsession) ⊎ (status ≡ err_conn_not_bound)

  reply_recovers :
      (status : SeqStatus) (task : SeqTask) (target : ℕ) (s : Slot)
      → IsSessionError status
      → task.was_sent ≡ true
      → s.seq_done ≡ false
      → (status' : SeqStatus) × (sequence_reply status task target s ≡ (s, session_recover status'))
  unfolding sequence_reply sequence_switch
  reply_recovers status task target s c h d =
      (if task.tk_deadsession then err_deadsession else status, ground arith)

  recovered :
      (watched : Bool) (task : SeqTask) (res : Res) (w : World) (p : ℕ) (status : SeqStatus)
      (s : Slot)
      → sequence_reply res.sr_status task w.tbl.target_highest_slotid (slot_at w.tbl.slots p)
        ≡ (s, session_recover status)
      → let r =
          done_processed B W mem now watched
            (process_held B W mem now watched task res w (some p)) in
        (r.1 ≡ true) × (r.0.tbl.draining ≡ true) × (r.0.sr_slot ≡ none)
  recovered watched task res w p status s e =
      let v : (sequence_reply res.sr_status task w.tbl.target_highest_slotid
            (slot_at w.tbl.slots p)).1
          ≡ session_recover status =
        ap (λ r. r.1) e in
      rw v (
        refl,
        sequence_free_slot-draining watched _ ∙ sequence_free_slot-draining watched _,
        sequence_free_slot-none watched _,
      )

  -- A call without a slot sleeps while the table drains, unless it is privileged.
  sleeps :
      (t : Task) (w : World)
      → w.sr_slot ≡ none
      → w.tbl.draining ≡ true
      → t.sa_privileged ≡ false
      → (setup_held B W mem now t w w.sr_slot).1 ≡ asleep
  sleeps t w n g u =
      subst (λ h. (setup_held B W mem now t w h).1 ≡ asleep) (sym n) (ground (arith, g, u))

  -- After a session error the call is finished and holds no slot, the table drains, and an ordinary
  -- call that asks for a slot then goes to sleep.
  pub session_error_blocks :
      (watched : Bool) (task : SeqTask) (res : Res) (w : World) (p : ℕ)
      → w.sr_slot ≡ some p
      → IsSessionError res.sr_status
      → task.was_sent ≡ true
      → (slot_at w.tbl.slots p).seq_done ≡ false
      → let (w', finished) = sequence_done B W mem now watched task res w in
        (finished ≡ true)
        × (w'.tbl.draining ≡ true)
        × (w'.sr_slot ≡ none)
        × ((t : Task) → t.sa_privileged ≡ false → (setup_sequence B W mem now t w').1 ≡ asleep)
  unfolding sequence_done sequence_process setup_sequence
  session_error_blocks watched task res w p e c h d =
      let (status, q) =
        reply_recovers res.sr_status task w.tbl.target_highest_slotid (slot_at w.tbl.slots p) c h
          d in
      let (f, g, n) = recovered watched task res w p status _ q in
      subst
        (λ h.
          let (w', finished) =
            done_processed B W mem now watched (process_held B W mem now watched task res w h) in
          (finished ≡ true)
          × (w'.tbl.draining ≡ true)
          × (w'.sr_slot ≡ none)
          × ((t : Task)
              → t.sa_privileged ≡ false
              → (setup_held B W mem now t w' w'.sr_slot).1 ≡ asleep))
        (sym e) (f, g, n, λ t u. sleeps t _ n g u)

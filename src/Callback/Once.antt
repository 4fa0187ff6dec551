-- ===== src/Callback/Once.antt =====
-- CB_SEQUENCE executes each numbered request at most once, in order.
use mynfs.Base.{
  ==_self, ℕ, ◌^◌, ◌≤◌, ◌<◌, ◌≡◌, refl, sym, ap, subst, ◌∙◌, ◌≢◌, Bool, true, false, some, modify,
  length, inl, inr, ◌⊎◌, add32, arith,
}
use mynfs.Slot.Kernel.{Bits}
use mynfs.Slot.Walk.{IsListed}
use mynfs.Slot.Invariant.{IsWf, slot_nr_at-IsListed}
use mynfs.Slot.Table.{
  SlotTable, Found, ok, err, no_fuel, lookup_slot, lock_slot, try_to_lock_slot, seq_nr_at,
  slot_nr_at,
}
use mynfs.Callback.Sequence.{
  CbStatus, nfs4_ok, err_delay, CbSequenceArgs, CbClient, validate_seqid, CbState, sequence_locked,
  sequence_validated, sequence_found, callback_sequence,
}
use mynfs.Callback.Lookup.{
  refcalls, referring_call_exists_nonneg, seq_nr_at-modify_self, try_to_lock_slot-seq_nr,
  length-try_to_lock_slot, LookedUp, lookup_slot-LookedUp,
}

module _ (times_out : ℕ → ℕ → Bool) (mem : ℕ → Bool) (others : SlotTable → SlotTable)
    (clp : CbClient) (args : CbSequenceArgs) (few : refcalls args.csa_rclists < 2 ^ 31) where
  abbrev locked : ℕ → SlotTable × Bool → CbState
  locked = sequence_locked mem times_out others clp args

  locked_refused :
      (p : ℕ) (r : SlotTable × Bool) → (locked p r).status ≢ nfs4_ok → (locked p r).tbl ≡ r.0
  locked_refused p (t, false) h = refl
  locked_refused p (t, true) h =
      ground (arith, referring_call_exists_nonneg times_out clp.sess_id args.csa_rclists few)

  locked_accepted :
      (p : ℕ) (r : SlotTable × Bool)
      → (locked p r).status ≡ nfs4_ok
      → (r.1 ≡ true)
        × ((locked p r).slot ≡ some p)
        × ((locked p r).tbl ≡ record (others r.0) {
          slots = modify (others r.0).slots p (λ s. record s { seq_nr = args.csa_sequenceid });
        })
  locked_accepted p (t, false) h = absurd (cc)
  locked_accepted p (t, true) h =
      ground (arith, referring_call_exists_nonneg times_out clp.sess_id args.csa_rclists few)

  abbrev validated : SlotTable → ℕ → CbStatus → CbState
  validated = sequence_validated mem times_out others clp args

  validated_refused :
      (t : SlotTable) (p j : ℕ) (d : CbStatus)
      → (validated t p d).status ≢ nfs4_ok
      → seq_nr_at (validated t p d).tbl.slots j ≡ seq_nr_at t.slots j
  validated_refused t p j nfs4_ok h =
      ap (λ (u : SlotTable). seq_nr_at u.slots j) (locked_refused p (try_to_lock_slot t p) h)
      ∙ try_to_lock_slot-seq_nr t p j
  validated_refused t p j _ h = refl

  found_refused :
      (tbl t : SlotTable) (slotid j : ℕ) (f : Found)
      → (sequence_found mem times_out others clp args (t, f)).status ≢ nfs4_ok
      → seq_nr_at (sequence_found mem times_out others clp args (t, f)).tbl.slots j
        ≡ seq_nr_at t.slots j
  found_refused tbl t slotid j (ok p) h = validated_refused t p j (validate_seqid t p args) h
  found_refused tbl t slotid j (err e) h = refl
  found_refused tbl t slotid j no_fuel h = refl

  abbrev pub answer : SlotTable → CbState
  answer tbl = callback_sequence mem times_out others (some clp) args tbl

  -- The call is refused at once, or goes on to look the slot up.
  answer_cases :
      (tbl : SlotTable)
      → (((answer tbl).tbl ≡ tbl) × ((answer tbl).status ≢ nfs4_ok))
        ⊎ (answer tbl
            ≡ sequence_found mem times_out others clp args (lookup_slot mem tbl args.csa_slotid))
  unfolding callback_sequence
  answer_cases tbl = ground arith

  -- RFC 5661, 20.9.3: where CB_SEQUENCE answers with an error, no slot's sequence number changes.
  pub callback_sequence_refused :
      (tbl : SlotTable) (j : ℕ)
      → IsWf tbl
      → j < tbl.max_slots
      → (answer tbl).status ≢ nfs4_ok
      → seq_nr_at (answer tbl).tbl.slots j ≡ seq_nr_at tbl.slots j
  callback_sequence_refused tbl j v h n = elim (answer_cases tbl) [
    | inl (e, _) ↦ rw e refl
    | inr e ↦
        let l = lookup_slot mem tbl args.csa_slotid in
        ap (λ (r : CbState). seq_nr_at r.tbl.slots j) e
        ∙ found_refused tbl l.0 args.csa_slotid j l.1
            (λ q. n (ap (λ (r : CbState). r.status) e ∙ q))
        ∙ (lookup_slot-LookedUp mem tbl args.csa_slotid v).0 j h
  ]

  -- What an accepted request tells of the slot that was looked up.
  abbrev Accepted : SlotTable → ℕ → CbState → Type 0
  Accepted t p r =
      (args.csa_sequenceid ≡ add32 (seq_nr_at t.slots p) 1)
      × (args.csa_slotid ≤ t.server_highest_slotid)
      × (t.used_slots (slot_nr_at t.slots p) ≡ false)
      × (r.slot ≡ some p)
      × (r.tbl ≡ record (others (try_to_lock_slot t p).0) {
        slots =
            modify (others (try_to_lock_slot t p).0).slots p
              (λ s. record s { seq_nr = args.csa_sequenceid });
      })

  validate_seqid_ok :
      (t : SlotTable) (p : ℕ)
      → validate_seqid t p args ≡ nfs4_ok
      → (args.csa_sequenceid ≡ add32 (seq_nr_at t.slots p) 1)
        × (args.csa_slotid ≤ t.server_highest_slotid)
        × (args.csa_sequenceid ≢ seq_nr_at t.slots p)
  unfolding validate_seqid
  validate_seqid_ok t p h = ground arith

  try_to_lock_slot_free :
      (t : SlotTable) (p : ℕ)
      → (try_to_lock_slot t p).1 ≡ true
      → t.used_slots (slot_nr_at t.slots p) ≡ false
  unfolding try_to_lock_slot
  try_to_lock_slot_free t p h = ground arith

  try_to_lock_slot_used :
      (t : SlotTable) (p : ℕ)
      → IsListed t
      → p < t.max_slots
      → (try_to_lock_slot t p).0.used_slots p ≡ true
  unfolding try_to_lock_slot lock_slot
  try_to_lock_slot_used t p l k = ground (arith, slot_nr_at-IsListed t p l k, ==_self p)

  validated-Accepted :
      (t : SlotTable) (p : ℕ) (d : CbStatus)
      → validate_seqid t p args ≡ d
      → (validated t p d).status ≡ nfs4_ok
      → Accepted t p (validated t p d)
  validated-Accepted t p nfs4_ok q h =
      let (a, b, _) = validate_seqid_ok t p q in
      let (l, c, e) = locked_accepted p (try_to_lock_slot t p) h in
      (a, b, try_to_lock_slot_free t p l, c, e)
  validated-Accepted t p err_delay q h = absurd (cc)
  validated-Accepted t p _ q h = absurd (cc)

  -- An accepted request names a slot that was looked up, is well formed and lies in the list.
  abbrev FoundAccepted : SlotTable × Found → CbState → Type 0
  FoundAccepted (t, f) r = Accepted t args.csa_slotid r × IsWf t × (args.csa_slotid < t.max_slots)

  found-Accepted :
      (tbl t : SlotTable) (f : Found)
      → LookedUp tbl args.csa_slotid (t, f)
      → (sequence_found mem times_out others clp args (t, f)).status ≡ nfs4_ok
      → FoundAccepted (t, f) (sequence_found mem times_out others clp args (t, f))
  found-Accepted tbl t (ok p) (_, _, inl (e, v, k)) h =
      let q : p ≡ args.csa_slotid = ground arith in
      (
        subst (λ n. Accepted t n (validated t p (validate_seqid t p args))) q
            (validated-Accepted t p (validate_seqid t p args) refl h),
        v,
        k,
      )
  found-Accepted tbl t (ok p) (_, _, inr (x, e)) h = absurd (cc)
  found-Accepted tbl t (err e) l h = absurd (cc)
  found-Accepted tbl t no_fuel l h = absurd (cc)

  answer-Accepted :
      (tbl : SlotTable)
      → IsWf tbl
      → (answer tbl).status ≡ nfs4_ok
      → FoundAccepted (lookup_slot mem tbl args.csa_slotid) (answer tbl)
  answer-Accepted tbl v h = elim (answer_cases tbl) [
    | inl (_, n) ↦ absurd (n h)
    | inr e ↦
        let l = lookup_slot mem tbl args.csa_slotid in
        let k =
          found-Accepted tbl l.0 l.1 (lookup_slot-LookedUp mem tbl args.csa_slotid v)
            (ap (λ (r : CbState). r.status) (sym e) ∙ h) in
        subst (λ r. FoundAccepted l r) (sym e) k
  ]

  -- What a request that is accepted finds in the table and leaves there.
  abbrev pub Executed : SlotTable → Type 0
  Executed tbl =
      (args.csa_sequenceid ≡ add32 (seq_nr_at tbl.slots args.csa_slotid) 1)
      × (tbl.used_slots args.csa_slotid ≡ false)
      × ((answer tbl).slot ≡ some args.csa_slotid)
      × ((answer tbl).tbl.used_slots args.csa_slotid ≡ true)
      × (seq_nr_at (answer tbl).tbl.slots args.csa_slotid ≡ args.csa_sequenceid)

  -- A request on a slot of the table is accepted only in order: it carries the number after the
  -- slot's, and the slot was free. The slot is then locked for it, and the slot's number is the
  -- request's, also where other threads changed the table during a wait, as long as they left the slot
  -- in the list, and left it locked once it was.
  pub callback_sequence_in_order :
      (tbl : SlotTable)
      → IsWf tbl
      → args.csa_slotid < tbl.max_slots
      → ((t : SlotTable) → length t.slots ≤ length (others t).slots)
      → ((t : SlotTable)
          → t.used_slots args.csa_slotid ≡ true
          → (others t).used_slots args.csa_slotid ≡ true)
      → (answer tbl).status ≡ nfs4_ok
      → Executed tbl
  callback_sequence_in_order tbl v k stay held h =
      let ((a, _, f, c, e), w, m) = answer-Accepted tbl v h in
      let (same, used, _) = lookup_slot-LookedUp mem tbl args.csa_slotid v in
      let t = (lookup_slot mem tbl args.csa_slotid).0 in
      let u = (try_to_lock_slot t args.csa_slotid).0 in
      (
        a ∙ ap (λ n. add32 n 1) (same args.csa_slotid k),
        ap (λ (b : Bits). b args.csa_slotid) (sym used)
            ∙ ap t.used_slots (sym (slot_nr_at-IsListed t args.csa_slotid w.listed m))
            ∙ f,
        c,
        ap (λ (q : SlotTable). q.used_slots args.csa_slotid) e
            ∙ held u (try_to_lock_slot_used t args.csa_slotid w.listed m),
        ap (λ (q : SlotTable). seq_nr_at q.slots args.csa_slotid) e
            ∙ seq_nr_at-modify_self (others u).slots args.csa_slotid args.csa_sequenceid (
                omega (arith, stay u, length-try_to_lock_slot t args.csa_slotid, w.listed.counted)),
      )

  -- Where the slot's number is the request's, the request is refused.
  stored_refused :
      (tbl : SlotTable)
      → IsWf tbl
      → args.csa_slotid < tbl.max_slots
      → args.csa_sequenceid < 2 ^ 32
      → seq_nr_at tbl.slots args.csa_slotid ≡ args.csa_sequenceid
      → (answer tbl).status ≢ nfs4_ok
  stored_refused tbl v k fits e h =
      let (acc, _, _) = answer-Accepted tbl v h in
      let (same, _, _) = lookup_slot-LookedUp mem tbl args.csa_slotid v in
      omega (arith, acc.0, same args.csa_slotid k, e)

  -- A request is executed at most once: after it was accepted, the same request is refused on every
  -- table, well formed and with the slot in its list, in which the slot still has the number that the
  -- first execution left; the hypotheses on the first execution are those of the order.
  pub callback_sequence_replay :
      (tbl later : SlotTable)
      → IsWf tbl
      → args.csa_slotid < tbl.max_slots
      → ((t : SlotTable) → length t.slots ≤ length (others t).slots)
      → ((t : SlotTable)
          → t.used_slots args.csa_slotid ≡ true
          → (others t).used_slots args.csa_slotid ≡ true)
      → (answer tbl).status ≡ nfs4_ok
      → IsWf later
      → args.csa_slotid < later.max_slots
      → seq_nr_at later.slots args.csa_slotid ≡ seq_nr_at (answer tbl).tbl.slots args.csa_slotid
      → ((answer later).status ≢ nfs4_ok)
        × (seq_nr_at (answer later).tbl.slots args.csa_slotid ≡ args.csa_sequenceid)
  callback_sequence_replay tbl later v k stay held h w m kept =
      let (a, _, _, _, e) = callback_sequence_in_order tbl v k stay held h in
      let refused = stored_refused later w m (omega (arith, a)) (kept ∙ e) in
      (refused, callback_sequence_refused later args.csa_slotid w m refused ∙ kept ∙ e)

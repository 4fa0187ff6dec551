-- ===== src/Layout/Drained.antt =====
-- What a layout recall leaves, and which recalls are let through.
use mynfs.Base.{
  ℕ, ◌^◌, ◌<◌, ◌≡◌, ◌≢◌, refl, if◌then◌else◌, Bool, true, false, Option, none, some, List, [], ◌∷◌,
  All, length, ap, ◌∙◌, ◌⊎◌, Bool-cases, inl, inr, arith,
}
use mynfs.Layout.Range.{Range, unset, seqid_is_newer}
use mynfs.Layout.Header.{
  Stateid, Segment, LayoutHdr, set_layout_stateid, set_layout_cred, note_returns,
  set_plh_return_info, barrier_update, clear_layoutreturn_info,
}
use mynfs.Layout.Recalled.{matching, others, IsDone}
use mynfs.Layout.Recall.{
  Walk, ReturnStatus, need_return, still_busy, no_segments, match_lseg_recall,
  mark_matching_lsegs_return,
}
use mynfs.Layout.Purge.{IsPurged, Answered, mark_matching_lsegs_return-IsPurged}
use mynfs.Layout.Draining.{
  RecallStatus, nfs4_ok, nomatching_layout, bad_stateid, op_not_in_session, delay, old_stateid,
  check_callback_stateid, Recall, recalled, drain_checked, file_draining,
}

-- A layout whose stateid has the largest number lets no recall through, not even one of the next number:
-- the check compares the numbers as they are, where elsewhere they are compared around the circle.
pub check_callback_stateid_stuck :
    (lo : LayoutHdr) (new : Stateid) (referring_calls : Bool)
    → lo.plh_stateid.seqid ≡ 0xffff_ffff
    → new.seqid < 2 ^ 32
    → (check_callback_stateid lo new referring_calls ≢ nfs4_ok)
      × (seqid_is_newer 1 lo.plh_stateid.seqid ≡ true)
unfolding check_callback_stateid seqid_is_newer
check_callback_stateid_stuck lo new referring_calls h k = (λ e. ground arith, ground arith)

note_returns-segs :
    (lo : LayoutHdr) (ss : List Segment) → (note_returns lo ss).plh_segs ≡ lo.plh_segs
unfolding note_returns set_plh_return_info barrier_update
note_returns-segs lo [] = refl
note_returns-segs lo (s ∷ ss) =
    let lo' = if s.layoutreturn then set_plh_return_info lo s.pls_range.iomode 0 else lo in
    let e : lo'.plh_segs ≡ lo.plh_segs = ground arith in note_returns-segs lo' ss ∙ e

set_layout_stateid-segs :
    (differ : ℕ → ℕ → Bool) (lo : LayoutHdr) (new : Stateid) (cred : Option ℕ) (update : Bool)
    → (set_layout_stateid differ lo new cred update).plh_segs ≡ lo.plh_segs
unfolding set_layout_stateid clear_layoutreturn_info barrier_update set_layout_cred
set_layout_stateid-segs differ lo new none update = ground (
  arith,
  note_returns-segs
      (record lo {
        plh_stateid = new;
        plh_barrier = new.seqid;
        plh_return_iomode = unset;
        plh_return_seq = 0;
        return_requested = false;
      })
      lo.plh_segs,
)
set_layout_stateid-segs differ lo new (some cred) update =
    let c = set_layout_cred differ lo (some cred) in
    ground (
      arith,
      note_returns-segs
          (record c {
            plh_stateid = new;
            plh_barrier = new.seqid;
            plh_return_iomode = unset;
            plh_return_seq = 0;
            return_requested = false;
          })
          c.plh_segs,
    )

-- Either the recall is refused and the layout is as it was; or no matching segment is usable any more
-- and the others are as they were, and either a return is requested, or there is nothing to return.
abbrev pub Drained : (Segment → Bool) → LayoutHdr → Recall → Type 0
Drained test lo r =
    ((r.lo ≡ lo) × (r.status ≢ nfs4_ok) × (r.drains ≡ false))
    ⊎ (All (IsDone true) (matching test r.lo.plh_segs)
        × (others test r.lo.plh_segs ≡ others test lo.plh_segs)
        × (((r.status ≡ nfs4_ok) × (r.lo.return_requested ≡ true))
            ⊎ ((r.status ≡ nomatching_layout)
                × (r.drains ≡ true)
                × (matching test r.lo.plh_segs ≡ [])
                × (r.lo.plh_return_segs ≡ []))))

empty_list : (xs : List Segment) → length xs ≡ 0 → xs ≡ []
empty_list [] h = refl
empty_list (x ∷ xs) h = absurd (omega arith)

recalled-Drained :
    (test : Segment → Bool) (lo lo' : LayoutHdr) (w : Walk) (status : ReturnStatus)
    → lo'.plh_segs ≡ lo.plh_segs
    → IsPurged test true lo' [] w
    → Answered (w, status)
    → Drained test lo (recalled (w, status))
recalled-Drained test lo lo' w need_return e (n, d, o, l, k) (z, r, q) =
    inr (d, o ∙ ap (others test) e, inl (refl, q))
recalled-Drained test lo lo' w still_busy e (n, d, o, l, k) (z, q) =
    inr (d, o ∙ ap (others test) e, inl (refl, q))
recalled-Drained test lo lo' w no_segments e (n, d, o, l, k) (z, q) = inr (
  d,
  o ∙ ap (others test) e,
  inr (refl, refl, empty_list (matching test w.lo.plh_segs) (omega arith), q),
)

module _ (differ : ℕ → ℕ → Bool) (cbl_stateid : Stateid) (cbl_range : Range) where
  drain_checked-Drained :
      (lo : LayoutHdr) (status : RecallStatus)
      → Drained
          (λ s. match_lseg_recall s (some cbl_range) cbl_stateid.seqid)
          lo
          (drain_checked differ cbl_stateid cbl_range lo status)
  drain_checked-Drained lo nfs4_ok = elim (Bool-cases lo.bulk_recall) [
    | inl b ↦ rw b (inl (refl, λ e. cc, refl))
    | inr b ↦
        let lo' = set_layout_stateid differ lo cbl_stateid none true in
        let (p, a) = mark_matching_lsegs_return-IsPurged lo' [] cbl_range cbl_stateid.seqid in
        let r = mark_matching_lsegs_return lo' [] cbl_range cbl_stateid.seqid in
        simp b (
          recalled-Drained (λ s. match_lseg_recall s (some cbl_range) cbl_stateid.seqid) lo lo' r.0
            r.1 (set_layout_stateid-segs differ lo cbl_stateid none true) p a)
  ]
  drain_checked-Drained lo nomatching_layout = inl (refl, λ e. cc, refl)
  drain_checked-Drained lo bad_stateid = inl (refl, λ e. cc, refl)
  drain_checked-Drained lo delay = inl (refl, λ e. cc, refl)
  drain_checked-Drained lo old_stateid = inl (refl, λ e. cc, refl)
  drain_checked-Drained lo op_not_in_session = inl (refl, λ e. cc, refl)

  -- A recall of a layout either is refused, and then leaves the layout as it was; or it leaves every
  -- matching segment that stays invalid and marked for return, and the other segments as they were.
  -- Then it is answered with success and a return is requested, or with "no matching layout", and
  -- then no matching segment is left, and none waits to be returned.
  pub file_draining-Drained :
      (lo : LayoutHdr) (referring_calls : Bool)
      → Drained
          (λ s. match_lseg_recall s (some cbl_range) cbl_stateid.seqid)
          lo
          (file_draining differ cbl_stateid cbl_range lo referring_calls)
  unfolding file_draining
  file_draining-Drained lo referring_calls =
      drain_checked-Drained lo (check_callback_stateid lo cbl_stateid referring_calls)

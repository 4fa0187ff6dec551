-- ===== src/Layout/Purge.antt =====
-- What is left of a layout when the segments that a recall or a return names were invalidated.
use mynfs.Base.{
  ℕ, ◌<◌, ◌+◌, ltb, ◌≡◌, refl, sym, ap, subst, ◌∙◌, ◌≢◌, if◌then◌else◌, Bool, true, false, Option,
  none, some, List, [], ◌∷◌, ◌++◌, All, length, Bool-cases, inl, inr, arith,
}
use mynfs.Layout.Range.{Range, IoMode}
use mynfs.Layout.Header.{Segment, LayoutHdr, set_plh_return_info, barrier_update}
use mynfs.Layout.Recalled.{
  matching, others, IsDone, staying, Visited, Walked, walk_segs-Walked, keep-Visited,
  settle-Visited, mark_lseg_invalid-Marks,
}
use mynfs.Layout.Recall.{
  is_empty, return_status, need_return, still_busy, Walk, ReturnStatus, no_segments,
  match_lseg_recall, mark_lseg_invalid, visit_invalid, mark_matching_lsegs_invalid, visit_return,
  mark_matching_lsegs_return, begin,
}

-- The test of a recall reads only the range and the sequence number of a segment.
match_lseg_recall-same :
    (range : Option Range) (seq : ℕ) (s s' : Segment)
    → s'.pls_range ≡ s.pls_range
    → s'.pls_seq ≡ s.pls_seq
    → match_lseg_recall s range seq ≡ true
    → match_lseg_recall s' range seq ≡ true
unfolding match_lseg_recall
match_lseg_recall-same none seq s s' e f h = ground arith
match_lseg_recall-same (some r) seq s s' e f h = ground arith

visit_invalid-Visited :
    (range : Option Range) (seq : ℕ) (w : Walk) (s : Segment) (rest : List Segment)
    → Visited (λ s. match_lseg_recall s range seq) false w s (visit_invalid range seq w s rest)
unfolding visit_invalid
visit_invalid-Visited range seq w s rest = elim (Bool-cases (match_lseg_recall s range seq)) [
  | inl e ↦ rw e (
      settle-Visited (λ s. match_lseg_recall s range seq) false w s w.to_return s.layoutreturn
        (mark_lseg_invalid w.lo (w.kept ++ rest) s) e refl
        (mark_lseg_invalid-Marks (λ s. match_lseg_recall s range seq) false w.lo (w.kept ++ rest) s
          (λ s' a b. match_lseg_recall-same range seq s s' a b e)))
  | inr e ↦ rw e (keep-Visited (λ s. match_lseg_recall s range seq) false w s e)
]

redirected :
    (b : Bool) (w : Walk)
    → (if b then record w { to_return = true } else w)
      ≡ record w { to_return = if b then true else w.to_return }
redirected true w = refl
redirected false w = refl

visit_return-Visited :
    (range : Range) (seq : ℕ) (w : Walk) (s : Segment) (rest : List Segment)
    → Visited (λ s. match_lseg_recall s (some range) seq) true w s (visit_return range seq w s rest)
unfolding visit_return
visit_return-Visited range seq w s rest = elim (Bool-cases (match_lseg_recall s (some range) seq)) [
  | inl e ↦
      rw (e, redirected s.layoutreturn w)
        (settle-Visited (λ s. match_lseg_recall s (some range) seq) true w s
          (if s.layoutreturn then true else w.to_return) true
          (mark_lseg_invalid w.lo (w.kept ++ rest) s) e refl
          (mark_lseg_invalid-Marks (λ s. match_lseg_recall s (some range) seq) true w.lo
            (w.kept ++ rest) s (λ s' a b. match_lseg_recall-same (some range) seq s s' a b e)))
  | inr e ↦ rw e (keep-Visited (λ s. match_lseg_recall s (some range) seq) true w s e)
]

-- What a walk that started on the whole list left: every matching segment still in the list is
-- invalid, and marked for return where `marked`; `remaining` counts them; the other segments are as
-- they were, in their order; no segment is lost: each is in the list or on one of the two others; and
-- the matching segments still in the list are exactly those that were in use, in their order.
abbrev pub IsPurged : (Segment → Bool) → Bool → LayoutHdr → List Segment → Walk → Type 0
IsPurged test marked lo tmp_list w =
    (w.remaining ≡ length (matching test w.lo.plh_segs))
    × All (IsDone marked) (matching test w.lo.plh_segs)
    × (others test w.lo.plh_segs ≡ others test lo.plh_segs)
    × (length w.lo.plh_segs + length w.tmp_list + length w.lo.plh_return_segs
        ≡ length lo.plh_segs + length tmp_list + length lo.plh_return_segs)
    × (matching test w.lo.plh_segs ≡ staying marked (matching test lo.plh_segs))

Walked-IsPurged :
    (test : Segment → Bool) (marked to_return : Bool) (lo : LayoutHdr) (tmp_list : List Segment)
    (w : Walk)
    → Walked test marked (begin lo tmp_list to_return) lo.plh_segs w
    → IsPurged test marked lo tmp_list w
Walked-IsPurged test marked to_return lo tmp_list w v = (
  omega (arith, v.counted, ap (λ xs. length (matching test xs)) v.kept_added),
  subst (λ xs. All (IsDone marked) (matching test xs)) (sym v.kept_added) v.done,
  ap (others test) v.kept_added ∙ v.same,
  omega (arith, v.none_lost),
  ap (matching test) v.kept_added ∙ v.stays,
)

-- Invalidating the segments that a recall names, by range and by age: every matching segment that is
-- still in use stays in the list as invalid, and no other does, the result counts these, the segments that do not match
-- are left alone, and no segment is lost.
pub mark_matching_lsegs_invalid-IsPurged :
    (lo : LayoutHdr) (tmp_list : List Segment) (range : Option Range) (seq : ℕ)
    → IsPurged
        (λ s. match_lseg_recall s range seq)
        false
        lo
        tmp_list
        (mark_matching_lsegs_invalid lo tmp_list range seq)
unfolding mark_matching_lsegs_invalid
mark_matching_lsegs_invalid-IsPurged lo tmp_list range seq =
    Walked-IsPurged (λ s. match_lseg_recall s range seq) false false lo tmp_list _
      (walk_segs-Walked (λ s. match_lseg_recall s range seq) false (visit_invalid range seq)
        (visit_invalid-Visited range seq) (begin lo tmp_list false) lo.plh_segs)

set_plh_return_info-lists :
    (lo : LayoutHdr) (iomode : IoMode) (seq : ℕ)
    → let lo' = set_plh_return_info lo iomode seq in
      (lo'.plh_segs ≡ lo.plh_segs)
      × (lo'.plh_return_segs ≡ lo.plh_return_segs)
      × (lo'.return_requested ≡ true)
unfolding set_plh_return_info barrier_update
set_plh_return_info-lists lo mode seq = ground arith

informed-IsPurged :
    (test : Segment → Bool) (marked : Bool) (lo lo' : LayoutHdr) (tmp_list : List Segment)
    (w : Walk)
    → lo'.plh_segs ≡ w.lo.plh_segs
    → lo'.plh_return_segs ≡ w.lo.plh_return_segs
    → IsPurged test marked lo tmp_list w
    → IsPurged test marked lo tmp_list (record w { lo = lo' })
informed-IsPurged test marked lo lo' tmp_list w e f v = rw (e, f) v

-- The three answers: nothing is left to return, segments are still in use, or a return is needed;
-- where there is something to return, a return is requested.
abbrev pub Answered : Walk × ReturnStatus → Type 0
Answered (w, no_segments) = (w.remaining ≡ 0) × (w.lo.plh_return_segs ≡ [])
Answered (w, still_busy) = (0 < w.remaining) × (w.lo.return_requested ≡ true)
Answered (w, need_return) =
    (w.remaining ≡ 0) × (w.lo.plh_return_segs ≢ []) × (w.lo.return_requested ≡ true)

is_empty-true : (xs : List Segment) → is_empty xs ≡ true → xs ≡ []
is_empty-true [] h = refl
is_empty-true (x ∷ xs) h = absurd (cc)

is_empty-false : (xs : List Segment) → is_empty xs ≡ false → xs ≢ []
is_empty-false [] h e = absurd (cc)
is_empty-false (x ∷ xs) h e = absurd (cc)

return_status-Answered :
    (test : Segment → Bool) (lo : LayoutHdr) (tmp_list : List Segment) (range : Range) (seq : ℕ)
    (w : Walk)
    → IsPurged test true lo tmp_list w
    → IsPurged test true lo tmp_list (return_status range seq w).0
      × Answered (return_status range seq w)
return_status-Answered test lo tmp_list range seq w v =
    let (a, b, c) = set_plh_return_info-lists w.lo range.iomode seq in
    let p =
      informed-IsPurged test true lo (set_plh_return_info w.lo range.iomode seq) tmp_list w a b v in
    elim (Bool-cases (ltb 0 w.remaining)) [
      | inl e ↦ rw e (p, (ground arith, c))
      | inr e ↦ elim (Bool-cases (is_empty w.lo.plh_return_segs)) [
        | inl f ↦ rw (e, f) (v, (ground arith, is_empty-true w.lo.plh_return_segs f))
        | inr f ↦
            rw (e, f) (p, (ground arith, λ h. is_empty-false w.lo.plh_return_segs f (sym b ∙ h), c))
      ]
    ]

-- Marking for return the segments that a recall names, by range and by age: the matching segments
-- that were in use, because they have a reference beside the list's or were invalid before, are
-- exactly those that stay in the list, in their order, invalid and marked; each of them that was valid
-- loses one reference, and the result counts them. The segments that do not match are left alone,
-- and no segment is lost. The answer is "none" exactly when no matching segment is left and no segment
-- waits to be returned; otherwise a return is requested.
pub mark_matching_lsegs_return-IsPurged :
    (lo : LayoutHdr) (tmp_list : List Segment) (range : Range) (seq : ℕ)
    → let r = mark_matching_lsegs_return lo tmp_list range seq in
      IsPurged (λ s. match_lseg_recall s (some range) seq) true lo tmp_list r.0 × Answered r
unfolding mark_matching_lsegs_return
mark_matching_lsegs_return-IsPurged lo tmp_list range seq =
    let test : Segment → Bool = λ s. match_lseg_recall s (some range) seq in
    return_status-Answered test lo tmp_list range seq _ (
      Walked-IsPurged test true lo.return_requested lo tmp_list _ (
        walk_segs-Walked test true (visit_return range seq) (visit_return-Visited range seq)
          (begin lo tmp_list lo.return_requested) lo.plh_segs))

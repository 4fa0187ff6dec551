-- ===== src/Layout/Returned.antt =====
-- The segments that wait to be returned: mynfs/pnfs.c.
use mynfs.Base.{
  ◌≡◌, refl, ◌∙◌, sym, ap, if◌then◌else◌, Bool, Option, ℕ, List, [], ◌∷◌, ◌++◌, Bool-cases, inl,
  inr,
}
use mathlib.Core.List.{append-nil, append_assoc}
use mynfs.Layout.Range.{Range}
use mynfs.Layout.Header.{Segment, LayoutHdr, set_plh_return_info}
use mynfs.Layout.Recall.{match_lseg_recall}
use mynfs.Layout.Recalled.{matching, others}

-- The loop of `pnfs_reset_return_info`.
unfoldable pub note_segments : LayoutHdr → List Segment → LayoutHdr
note_segments lo [] = lo
note_segments lo (s ∷ ss) = note_segments (set_plh_return_info lo s.pls_range.iomode 0) ss

unfoldable pub reset_return_info : LayoutHdr → LayoutHdr
reset_return_info lo = note_segments lo lo.plh_return_segs

-- The loop of `pnfs_free_returned_lsegs`: what stays, and `free_me`.
unfoldable pub move_returned :
    Option Range → ℕ → List Segment → List Segment → List Segment × List Segment
move_returned range seq [] free_me = ([], free_me)
move_returned range seq (s ∷ ss) free_me =
    let (stay, free) = move_returned range seq ss free_me in
    let moved = move_returned range seq ss (free_me ++ s ∷ []) in
    if match_lseg_recall s range seq then moved else (s ∷ stay, free)

unfoldable pub free_returned_lsegs :
    LayoutHdr → List Segment → Option Range → ℕ → LayoutHdr × List Segment
free_returned_lsegs lo free_me range seq =
    let (stay, free) = move_returned range seq lo.plh_return_segs free_me in
    (record lo { plh_return_segs = stay }, free)

move_returned_lem :
    (range : Option Range) (seq : ℕ) (ss free_me : List Segment)
    → let test : Segment → Bool = λ s. match_lseg_recall s range seq in
      ((move_returned range seq ss free_me).0 ≡ others test ss)
      × ((move_returned range seq ss free_me).1 ≡ free_me ++ matching test ss)
unfolding move_returned
move_returned_lem range seq [] free_me = (refl, sym (append-nil free_me))
move_returned_lem range seq (s ∷ ss) free_me = elim (Bool-cases (match_lseg_recall s range seq)) [
  | inl e ↦
      let (a, b) = move_returned_lem range seq ss (free_me ++ s ∷ []) in
      rw e (a, b ∙ append_assoc free_me (s ∷ []) _)
  | inr e ↦ let (a, b) = move_returned_lem range seq ss free_me in rw e (ap (◌∷◌ s) a, b)
]

-- Of the segments that wait to be returned, those that match move to the end of `free_me`, in their
-- order, and the others stay, in theirs.
free_returned_lsegs-parted :
    (lo : LayoutHdr) (free_me : List Segment) (range : Option Range) (seq : ℕ)
    → let test : Segment → Bool = λ s. match_lseg_recall s range seq in
      let (lo', free) = free_returned_lsegs lo free_me range seq in
      (lo'.plh_return_segs ≡ others test lo.plh_return_segs)
      × (free ≡ free_me ++ matching test lo.plh_return_segs)
unfolding free_returned_lsegs
free_returned_lsegs-parted lo free_me range seq =
    move_returned_lem range seq lo.plh_return_segs free_me

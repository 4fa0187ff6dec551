-- ===== src/Layout/Recall.antt =====
-- Invalidating the segments that a recall or a return names: mynfs/pnfs.c. A walk of the list keeps
-- the segments it has passed, in order, so that the list at any moment is what was passed and what is
-- still to come.
use mynfs.Base.{
  ℕ, ◌+◌, ◌-◌, ltb, ◌==◌, if◌then◌else◌, Bool, true, false, not, ◌&&◌, Option, none, some, List, [],
  ◌∷◌, ◌++◌,
}
use mynfs.Layout.Range.{Range, should_free_range, seqid_is_newer}
use mynfs.Layout.Header.{Segment, LayoutHdr, set_plh_return_info}

abbrev pub is_empty : List Segment → Bool
is_empty [] = true
is_empty (s ∷ ss) = false

unfoldable pub match_lseg_recall : Segment → Option Range → ℕ → Bool
match_lseg_recall lseg none seq = not (not (seq == 0) && seqid_is_newer lseg.pls_seq seq)
match_lseg_recall lseg (some recall_range) seq =
    if not (seq == 0) && seqid_is_newer lseg.pls_seq seq
    then false
    else should_free_range lseg.pls_range recall_range

-- `others` is the list without the segment.
unfoldable pub layout_remove_lseg : LayoutHdr → List Segment → Segment → LayoutHdr
layout_remove_lseg lo others lseg =
    let lo' : LayoutHdr = record lo { plh_segs = others; plh_refcount = lo.plh_refcount - 1 } in
    if lseg.layoutreturn
    then lo'
    else if is_empty others && (not lo.return_requested && not lo.layout_return)
    then record lo' {
      invalid_stid = if lo.plh_outstanding == 0 then true else lo.invalid_stid;
      bulk_recall = false;
    }
    else lo'

-- The header, the segment, and whether it left the list, for `tmp_list`.
unfoldable pub lseg_dec_and_remove_zero :
    LayoutHdr → List Segment → Segment → LayoutHdr × Segment × Bool
lseg_dec_and_remove_zero lo others lseg =
    let lseg' : Segment = record lseg { pls_refcount = lseg.pls_refcount - 1 } in
    if lseg'.pls_refcount == 0
    then (layout_remove_lseg lo others lseg', lseg', true)
    else (lo, lseg', false)

unfoldable pub mark_lseg_invalid : LayoutHdr → List Segment → Segment → LayoutHdr × Segment × Bool
unfolding lseg_dec_and_remove_zero
mark_lseg_invalid lo others lseg =
    if lseg.valid
    then lseg_dec_and_remove_zero lo others (record lseg { valid = false })
    else (lo, lseg, false)

-- `to_return` is whether `tmp_list` stands for `plh_return_segs`; `cancelled` are the segments whose
-- input and output the layout driver is asked to cancel.
pub record Walk : Type 0 where
  pub lo : LayoutHdr
  pub kept : List Segment
  pub tmp_list : List Segment
  pub to_return : Bool
  pub remaining : ℕ
  pub cancelled : List Segment

abbrev pub keep : Walk → Segment → Walk
keep w s = record w { kept = w.kept ++ s ∷ [] }

-- `list_add` to the list that `tmp_list` stands for.
abbrev pub doom : Walk → Segment → Walk
doom w s =
    if w.to_return
    then record w { lo = record w.lo { plh_return_segs = s ∷ w.lo.plh_return_segs } }
    else record w { tmp_list = s ∷ w.tmp_list }

abbrev pub begin : LayoutHdr → List Segment → Bool → Walk
begin lo tmp_list to_return = record {
  lo = lo;
  kept = [];
  tmp_list = tmp_list;
  to_return = to_return;
  remaining = 0;
  cancelled = [];
}

-- A segment that was marked; `flag` is the value its return mark gets where it stays.
abbrev pub settle : Walk → Bool → LayoutHdr × Segment × Bool → Walk
settle w flag (lo, s, true) = doom (record w { lo = lo }) s
settle w flag (lo, s, false) =
    let s' : Segment = record s { layoutreturn = flag } in
    record w {
      lo = lo;
      kept = w.kept ++ s' ∷ [];
      remaining = w.remaining + 1;
      cancelled = s' ∷ w.cancelled;
    }

-- The end of a loop leaves in the header the segments that were kept.
abbrev pub walk_segs : (Walk → Segment → List Segment → Walk) → Walk → List Segment → Walk
walk_segs visit w [] = record w { lo = record w.lo { plh_segs = w.kept } }
walk_segs visit w (s ∷ ss) = walk_segs visit (visit w s ss) ss

unfoldable pub visit_invalid : Option Range → ℕ → Walk → Segment → List Segment → Walk
visit_invalid range seq w s rest =
    if match_lseg_recall s range seq
    then settle w s.layoutreturn (mark_lseg_invalid w.lo (w.kept ++ rest) s)
    else keep w s

unfoldable pub mark_matching_lsegs_invalid : LayoutHdr → List Segment → Option Range → ℕ → Walk
mark_matching_lsegs_invalid lo tmp_list range seq =
    walk_segs (visit_invalid range seq) (begin lo tmp_list false) lo.plh_segs

unfoldable pub visit_return : Range → ℕ → Walk → Segment → List Segment → Walk
visit_return range seq w s rest =
    let w' : Walk = if s.layoutreturn then record w { to_return = true } else w in
    if match_lseg_recall s (some range) seq
    then settle w' true (mark_lseg_invalid w.lo (w.kept ++ rest) s)
    else keep w s

-- 0, -EBUSY and -ENOENT.
pub data ReturnStatus : Type 0 where
  need_return still_busy no_segments : ReturnStatus

-- What follows the loop.
abbrev pub return_status : Range → ℕ → Walk → Walk × ReturnStatus
return_status range seq w =
    let informed : Walk = record w { lo = set_plh_return_info w.lo range.iomode seq } in
    if ltb 0 w.remaining
    then (informed, still_busy)
    else if is_empty w.lo.plh_return_segs
    then (w, no_segments)
    else (informed, need_return)

unfoldable pub mark_matching_lsegs_return :
    LayoutHdr → List Segment → Range → ℕ → Walk × ReturnStatus
mark_matching_lsegs_return lo tmp_list range seq =
    return_status range seq
      (walk_segs (visit_return range seq) (begin lo tmp_list lo.return_requested) lo.plh_segs)

-- ===== src/Layout/Insert.antt =====
-- Inserting a segment into the list of a layout and finding one in it: mynfs/pnfs.c.
use mynfs.Base.{
  ℕ, suc, ◌+◌, if◌then◌else◌, Bool, true, false, not, ◌&&◌, Option, none, some, List, [], ◌∷◌, ◌++◌,
  modify,
}
use mynfs.Layout.Range.{Range, range_match}
use mynfs.Layout.Header.{Segment, LayoutHdr}
use mynfs.Layout.Recall.{Walk, keep, doom, mark_lseg_invalid, begin}

-- `do_merge`: the old segment is invalidated, and either leaves for `free_me` or stays.
abbrev pub merged : Walk → LayoutHdr × Segment × Bool → Walk
merged w (lo, lp, true) = doom (record w { lo = lo }) lp
merged w (lo, lp, false) = keep (record w { lo = lo }) lp

-- `list_add_tail` before the segments in `rest`.
abbrev pub insert_here : Segment → Walk → List Segment → Walk
insert_here lseg w rest = record w { lo = record w.lo { plh_segs = w.kept ++ lseg ∷ rest } }

module _ (is_after : Range → Range → Bool) (do_merge : Segment → Segment → Bool)
    (lseg : Segment) where
  unfoldable pub insert_walk : Walk → List Segment → Walk
  insert_walk w [] = insert_here lseg w []
  insert_walk w (lp ∷ rest) =
      let skipped = insert_walk (keep w lp) rest in
      let after_merge = insert_walk (merged w (mark_lseg_invalid w.lo (w.kept ++ rest) lp)) rest in
      if not lp.valid
      then skipped
      else if do_merge lseg lp
      then after_merge
      else if is_after lseg.pls_range lp.pls_range
      then skipped
      else insert_here lseg w (lp ∷ rest)

  -- `mypnfs_generic_layout_insert_lseg`; the inserted segment holds a reference on the header.
  unfoldable pub generic_layout_insert_lseg : LayoutHdr → List Segment → Walk
  generic_layout_insert_lseg lo free_me =
      let w = insert_walk (begin lo free_me false) lo.plh_segs in
      record w { lo = record w.lo { plh_refcount = w.lo.plh_refcount + 1 } }

abbrev pub lseg_no_merge : Segment → Segment → Bool
lseg_no_merge lseg old = false

-- The first valid segment that matches, by its position.
unfoldable pub find_position : List Segment → Range → Bool → Option ℕ
find_position [] range strict_iomode = none
find_position (s ∷ ss) range strict_iomode =
    let next = find_position ss range strict_iomode in
    if s.valid && range_match s.pls_range range strict_iomode
    then some 0
    else elim next [ some n ↦ some (suc n) | none ↦ none ]

-- A reference is taken on the segment that is returned.
abbrev pub referenced : LayoutHdr → Option ℕ → LayoutHdr × Option ℕ
referenced lo none = (lo, none)
referenced lo (some n) = (
  record lo {
    plh_segs = modify lo.plh_segs n (λ s. record s { pls_refcount = s.pls_refcount + 1 });
  },
  some n,
)

unfoldable pub find_lseg : LayoutHdr → Range → Bool → LayoutHdr × Option ℕ
find_lseg lo range strict_iomode = referenced lo (find_position lo.plh_segs range strict_iomode)

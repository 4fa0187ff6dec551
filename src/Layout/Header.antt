-- ===== src/Layout/Header.antt =====
-- The layout header with its segments, its stateid and the bookkeeping of returns: mynfs/pnfs.c.
-- Reference counts are numbers, and credentials are numbers that `differ` (`cred_fscmp`) compares.
use mynfs.Base.{
  ℕ, ltb, ◌==◌, if◌then◌else◌, Bool, true, false, not, ◌&&◌, ◌||◌, Option, none, some, List, [],
  ◌∷◌,
}
use mynfs.Layout.Range.{Range, IoMode, unset, any, same_iomode, seqid_is_newer}

pub record Stateid : Type 0 where
  pub seqid : ℕ
  pub other : ℕ

pub record Segment : Type 0 where
  pub pls_range : Range
  pub pls_seq : ℕ
  pub pls_refcount : ℕ
  pub valid : Bool  -- NFS_LSEG_VALID
  pub layoutreturn : Bool  -- NFS_LSEG_LAYOUTRETURN

pub record LayoutHdr : Type 0 where
  pub plh_refcount : ℕ
  pub plh_segs : List Segment
  pub plh_return_segs : List Segment
  pub plh_return_iomode : IoMode
  pub plh_return_seq : ℕ
  pub plh_barrier : ℕ
  pub plh_stateid : Stateid
  pub plh_outstanding : ℕ
  pub plh_block_lgets : ℕ
  pub plh_lc_cred : ℕ
  pub layout_return : Bool  -- NFS_LAYOUT_RETURN of plh_flags, and so on
  pub return_requested : Bool
  pub invalid_stid : Bool
  pub bulk_recall : Bool

unfoldable pub init_lseg : Range → Stateid → Segment → Segment
init_lseg range stateid lseg = record lseg {
  pls_refcount = 1;
  valid = true;
  pls_range = range;
  pls_seq = stateid.seqid;
}

unfoldable pub barrier_update : LayoutHdr → ℕ → LayoutHdr
barrier_update lo newseq =
    if seqid_is_newer newseq lo.plh_barrier || lo.plh_barrier == 0
    then record lo { plh_barrier = newseq }
    else lo

abbrev pub is_unset : IoMode → Bool
is_unset unset = true
is_unset _ = false

unfoldable pub set_plh_return_info : LayoutHdr → IoMode → ℕ → LayoutHdr
unfolding barrier_update
set_plh_return_info lo iomode seq =
    let seq' = if seq == 0 then lo.plh_stateid.seqid else seq in
    let lo' : LayoutHdr = record lo {
      plh_return_iomode =
          if not (is_unset lo.plh_return_iomode) && not (same_iomode lo.plh_return_iomode iomode)
          then any
          else iomode;
      return_requested = true;
      plh_return_seq =
          if lo.plh_return_seq == 0 || seqid_is_newer seq' lo.plh_return_seq
          then seq'
          else lo.plh_return_seq;
    } in
    barrier_update lo' seq'

-- `list_for_each_entry` over the segments that are marked for return.
unfoldable pub note_returns : LayoutHdr → List Segment → LayoutHdr
note_returns lo [] = lo
note_returns lo (s ∷ ss) =
    note_returns (if s.layoutreturn then set_plh_return_info lo s.pls_range.iomode 0 else lo) ss

unfoldable pub clear_layoutreturn_info : LayoutHdr → LayoutHdr
clear_layoutreturn_info lo =
    let cleared : LayoutHdr = record lo {
      plh_return_iomode = unset;
      plh_return_seq = 0;
      return_requested = false;
    } in
    note_returns cleared lo.plh_segs

module _ (differ : ℕ → ℕ → Bool) where
  unfoldable pub set_layout_cred : LayoutHdr → Option ℕ → LayoutHdr
  set_layout_cred lo none = lo
  set_layout_cred lo (some cred) =
      if differ lo.plh_lc_cred cred then record lo { plh_lc_cred = cred } else lo

  unfoldable pub set_layout_stateid : LayoutHdr → Stateid → Option ℕ → Bool → LayoutHdr
  set_layout_stateid lo new cred update_barrier =
      let fresh : LayoutHdr = record (set_layout_cred lo cred) {
        plh_stateid = new;
        plh_barrier = new.seqid;
      } in
      let lo' : LayoutHdr =
        if seqid_is_newer new.seqid lo.plh_stateid.seqid
        then record lo { plh_stateid = new }
        else lo in
      if lo.invalid_stid
      then record (clear_layoutreturn_info fresh) { invalid_stid = false }
      else if update_barrier
      then barrier_update lo' new.seqid
      else if lo.plh_outstanding == 1
      then barrier_update lo' lo'.plh_stateid.seqid
      else lo'

unfoldable pub layout_stateid_blocked : LayoutHdr → Stateid → Bool
layout_stateid_blocked lo stateid =
    not (lo.plh_barrier == 0) && seqid_is_newer lo.plh_barrier stateid.seqid

unfoldable pub layoutgets_blocked : LayoutHdr → Bool
layoutgets_blocked lo = ltb 0 lo.plh_block_lgets || lo.bulk_recall

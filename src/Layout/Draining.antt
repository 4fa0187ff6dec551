-- ===== src/Layout/Draining.antt =====
-- CB_LAYOUTRECALL: mynfs/callback_proc.c from `nfs_layout_find_inode_by_stateid` to
-- `nfs4_callback_layoutrecall`. The reference that the callback takes and drops itself, and the
-- commits that it starts, are left out.
use mynfs.Base.{
  ℕ, ltb, leb, ◌==◌, if◌then◌else◌, Bool, true, false, not, ◌&&◌, Option, none, some, List, [], ◌∷◌,
  add32,
}
use mynfs.Layout.Range.{Range}
use mynfs.Layout.Header.{Stateid, Segment, LayoutHdr, set_layout_stateid}
use mynfs.Layout.Recall.{
  Walk, ReturnStatus, need_return, still_busy, no_segments, mark_matching_lsegs_return,
}

-- A layout on a server's list, with what the search asks of its inode.
pub record Known : Type 0 where
  pub lo : LayoutHdr
  pub fh : ℕ
  pub is_current : Bool  -- it is the inode's layout
  pub sb_active : Bool  -- the superblock is in use
  pub can_grab : Bool  -- `igrab` succeeds

pub data Found : Type 0 where
  inode : Known → Found
  again noent : Found

abbrev pub grabbed : Known → Found
grabbed k = if k.sb_active && k.can_grab then inode k else again

unfoldable pub find_inode_by_stateid : List Known → Stateid → Found
find_inode_by_stateid [] stateid = noent
find_inode_by_stateid (k ∷ ks) stateid =
    let rest = find_inode_by_stateid ks stateid in
    if not k.lo.invalid_stid && stateid.other == k.lo.plh_stateid.other then grabbed k else rest

unfoldable pub find_inode_by_fh : List Known → ℕ → Found
find_inode_by_fh [] fh = noent
find_inode_by_fh (k ∷ ks) fh =
    let rest = find_inode_by_fh ks fh in if fh == k.fh && k.is_current then grabbed k else rest

abbrev pub or_find : Found → Found → Found
or_find noent second = second
or_find first second = first

unfoldable pub layout_find_inode : List Known → ℕ → Stateid → Found
unfolding find_inode_by_stateid find_inode_by_fh
layout_find_inode ks fh stateid =
    or_find (find_inode_by_stateid ks stateid) (find_inode_by_fh ks fh)

pub data RecallStatus : Type 0 where
  nfs4_ok nomatching_layout bad_stateid delay old_stateid op_not_in_session : RecallStatus

unfoldable pub check_callback_stateid : LayoutHdr → Stateid → Bool → RecallStatus
check_callback_stateid lo new referring_calls =
    let newseq = new.seqid in
    let oldseq = lo.plh_stateid.seqid in
    if lo.invalid_stid
    then nomatching_layout
    else if not (lo.plh_stateid.other == new.other)
    then bad_stateid
    else if lo.layout_return
    then delay
    else if ltb (add32 oldseq 1) newseq && not referring_calls
    then delay
    else if leb newseq oldseq
    then old_stateid
    else nfs4_ok

-- `drains` is whether NFS_LAYOUT_DRAIN is set and the driver returns the range; `freed` are the segments
-- to be freed after the lock is dropped.
pub record Recall : Type 0 where
  pub lo : LayoutHdr
  pub status : RecallStatus
  pub freed : List Segment
  pub drains : Bool

abbrev pub refused : LayoutHdr → RecallStatus → Recall
refused lo status = record { lo = lo; status = status; freed = []; drains = false }

abbrev pub recalled : Walk × ReturnStatus → Recall
recalled (w, need_return) = record {
  lo = w.lo;
  status = nfs4_ok;
  freed = w.tmp_list;
  drains = false;
}
recalled (w, still_busy) = record {
  lo = w.lo;
  status = nfs4_ok;
  freed = w.tmp_list;
  drains = false;
}
recalled (w, no_segments) = record {
  lo = w.lo;
  status = nomatching_layout;
  freed = w.tmp_list;
  drains = true;
}

module _ (differ : ℕ → ℕ → Bool) (cbl_stateid : Stateid) (cbl_range : Range) where
  abbrev pub drain_checked : LayoutHdr → RecallStatus → Recall
  drain_checked lo nfs4_ok =
      if lo.bulk_recall
      then refused lo delay
      else recalled (
          mark_matching_lsegs_return (set_layout_stateid differ lo cbl_stateid none true) []
            cbl_range cbl_stateid.seqid)
  drain_checked lo status = refused lo status

  -- `initiate_file_draining` of a layout, under the lock.
  unfoldable pub file_draining : LayoutHdr → Bool → Recall
  unfolding check_callback_stateid set_layout_stateid mark_matching_lsegs_return
  file_draining lo referring_calls =
      drain_checked lo (check_callback_stateid lo cbl_stateid referring_calls)

  -- `now` is the layout of the inode when the lock is taken.
  unfoldable pub initiate_file_draining :
      (Known → Option LayoutHdr) → List Known → ℕ → Bool → RecallStatus × Option Recall
  unfolding layout_find_inode file_draining
  initiate_file_draining now ks cbl_fh referring_calls =
      elim (layout_find_inode ks cbl_fh cbl_stateid) [
        | noent ↦ (nomatching_layout, none)
        | again ↦ (delay, none)
        | inode k ↦ elim (now k) [
          | none ↦ (nomatching_layout, none)
          | some lo ↦ let r = file_draining lo referring_calls in (r.status, some r)
        ]
      ]

  -- `bulk` is whether `pnfs_layout_destroy_byfsid` or `pnfs_layout_destroy_byclid` succeeds.
  unfoldable pub callback_layoutrecall :
      (Known → Option LayoutHdr)
      → Option (List Known)
      → ℕ
      → Bool
      → Bool
      → Bool
      → RecallStatus × Option Recall
  unfolding initiate_file_draining
  callback_layoutrecall now none cbl_fh return_file bulk referring_calls = (op_not_in_session, none)
  callback_layoutrecall now (some ks) cbl_fh return_file bulk referring_calls =
      if return_file
      then initiate_file_draining now ks cbl_fh referring_calls
      else if bulk
      then (nomatching_layout, none)
      else (delay, none)

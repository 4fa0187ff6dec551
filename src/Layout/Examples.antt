-- ===== src/Layout/Examples.antt =====
-- The theorems about layouts applied to a small layout.
use mynfs.Base.{ℕ, ◌≢◌, ◌≡◌, refl, Bool, true, false, not, ◌==◌, some, [], ◌∷◌, arith}
use mynfs.Layout.Range.{
  Range, unset, read, rw_mode, any, max_uint64, range_is_after, seqid_is_newer,
}
use mynfs.Layout.Header.{Stateid, Segment, LayoutHdr}
use mynfs.Layout.Recall.{match_lseg_recall, mark_matching_lsegs_return}
use mynfs.Layout.Purge.{IsPurged, Answered, mark_matching_lsegs_return-IsPurged}
use mynfs.Layout.Insert.{generic_layout_insert_lseg, lseg_no_merge}
use mynfs.Layout.Order.{IsInOrder, range_is_after_whole_file, generic_layout_insert_lseg-IsInOrder}
use mynfs.Layout.Draining.{nfs4_ok, check_callback_stateid, file_draining}
use mynfs.Layout.Drained.{check_callback_stateid_stuck, Drained, file_draining-Drained}

abbrev head_range : Range
head_range = record { iomode = read; offset = 0; range_length = 8 }

abbrev tail_range : Range
tail_range = record { iomode = rw_mode; offset = 4; range_length = 8 }

abbrev whole_range : Range
whole_range = record { iomode = any; offset = 0; range_length = max_uint64 }

range_is_after_whole_file_example :
    (range_is_after head_range whole_range ≡ false) × (range_is_after whole_range head_range ≡ true)
range_is_after_whole_file_example =
    range_is_after_whole_file head_range whole_range refl refl (omega arith)

-- The segment of a range, in use by `refs` others than the list.
abbrev segment : Range → ℕ → ℕ → Bool → Segment
segment range seq refs returning = record {
  pls_range = range;
  pls_seq = seq;
  pls_refcount = refs;
  valid = true;
  layoutreturn = returning;
}

abbrev layout : LayoutHdr
layout = record {
  plh_refcount = 3;
  plh_segs = segment head_range 2 1 false ∷ segment tail_range 3 2 true ∷ [];
  plh_return_segs = [];
  plh_return_iomode = unset;
  plh_return_seq = 0;
  plh_barrier = 2;
  plh_stateid = record { seqid = 3; other = 77 };
  plh_outstanding = 1;
  plh_block_lgets = 0;
  plh_lc_cred = 0;
  layout_return = false;
  return_requested = false;
  invalid_stid = false;
  bulk_recall = false;
}

abbrev differ : ℕ → ℕ → Bool
differ a b = not (a == b)

abbrev newer_stateid : Stateid
newer_stateid = record { seqid = 5; other = 77 }

mark_matching_lsegs_return-IsPurged_example :
    let r = mark_matching_lsegs_return layout [] whole_range 0 in
    IsPurged (λ s. match_lseg_recall s (some whole_range) 0) true layout [] r.0 × Answered r
mark_matching_lsegs_return-IsPurged_example =
    mark_matching_lsegs_return-IsPurged layout [] whole_range 0

abbrev new_segment : Segment
new_segment = segment (record { iomode = rw_mode; offset = 2; range_length = 4 }) 4 1 false

generic_layout_insert_lseg-IsInOrder_example :
    IsInOrder
      (generic_layout_insert_lseg range_is_after lseg_no_merge new_segment layout []).lo.plh_segs
generic_layout_insert_lseg-IsInOrder_example =
    generic_layout_insert_lseg-IsInOrder layout new_segment [] (omega arith, omega arith)
      ((omega arith, omega arith), ((omega arith, omega arith), tt)) ((λ h k. refl, tt), (tt, tt))

abbrev last_stateid : Stateid
last_stateid = record { seqid = 0xffff_ffff; other = 77 }

check_callback_stateid_stuck_example :
    (check_callback_stateid (record layout { plh_stateid = last_stateid }) newer_stateid true
      ≢ nfs4_ok)
    × (seqid_is_newer 1 last_stateid.seqid ≡ true)
check_callback_stateid_stuck_example =
    check_callback_stateid_stuck (record layout { plh_stateid = last_stateid }) newer_stateid true
      refl (omega arith)

file_draining-Drained_example :
    Drained
      (λ s. match_lseg_recall s (some whole_range) newer_stateid.seqid)
      layout
      (file_draining differ newer_stateid whole_range layout true)
file_draining-Drained_example = file_draining-Drained differ newer_stateid whole_range layout true

-- ===== src/Layout/Range.antt =====
-- Layout ranges over 64-bit offsets: the helpers of mynfs/pnfs.h and the comparisons of mynfs/pnfs.c.
use mynfs.Base.{
  sub64, is_pos64, ℕ, ◌+◌, ◌-◌, ◌^◌, ltb, leb, ◌==◌, if◌then◌else◌, Bool, true, false, not, ◌&&◌,
  ◌||◌, sub32, is_pos32,
}

-- `NFS4_MAX_UINT64`
abbrev pub max_uint64 : ℕ
max_uint64 = 2 ^ 64 - 1

-- `enum pnfs_iomode`; `unset` is the 0 that a cleared header holds.
pub data IoMode : Type 0 where
  unset read rw_mode any : IoMode

abbrev pub is_any : IoMode → Bool
is_any any = true
is_any _ = false

abbrev pub is_read : IoMode → Bool
is_read read = true
is_read _ = false

abbrev pub is_rw : IoMode → Bool
is_rw rw_mode = true
is_rw _ = false

abbrev pub same_iomode : IoMode → IoMode → Bool
same_iomode unset unset = true
same_iomode read read = true
same_iomode rw_mode rw_mode = true
same_iomode any any = true
same_iomode _ _ = false

pub record Range : Type 0 where
  pub iomode : IoMode
  pub offset : ℕ
  pub range_length : ℕ

unfoldable pub end_offset : ℕ → ℕ → ℕ
end_offset start len = if leb (max_uint64 - start) len then max_uint64 else start + len

unfoldable pub calc_offset_end : ℕ → ℕ → ℕ
calc_offset_end offset len =
    if len == max_uint64 || leb (max_uint64 - offset) len then max_uint64 else offset + len - 1

unfoldable pub calc_offset_length : ℕ → ℕ → ℕ
calc_offset_length offset end =
    if end == max_uint64 || leb end offset then max_uint64 else 1 + end - offset

unfoldable pub is_range_intersecting : ℕ → ℕ → ℕ → ℕ → Bool
is_range_intersecting start1 end1 start2 end2 =
    (end1 == max_uint64 || ltb start2 end1) && (end2 == max_uint64 || ltb start1 end2)

unfoldable pub range_intersecting : Range → Range → Bool
unfolding is_range_intersecting end_offset
range_intersecting l1 l2 =
    is_range_intersecting l1.offset (end_offset l1.offset l1.range_length) l2.offset
      (end_offset l2.offset l2.range_length)

-- Is `l2` within `l1`?
unfoldable pub range_contained : Range → Range → Bool
unfolding end_offset
range_contained l1 l2 =
    leb l1.offset l2.offset
    && leb (end_offset l2.offset l2.range_length) (end_offset l1.offset l1.range_length)

unfoldable pub should_free_range : Range → Range → Bool
unfolding range_intersecting
should_free_range lseg_range recall_range =
    (is_any recall_range.iomode || same_iomode lseg_range.iomode recall_range.iomode)
    && range_intersecting lseg_range recall_range

unfoldable pub range_match : Range → Range → Bool → Bool
unfolding range_intersecting range_contained
range_match ls_range range strict_iomode =
    if (is_rw range.iomode && not (is_rw ls_range.iomode))
      || ((not (same_iomode range.iomode ls_range.iomode) && strict_iomode)
          || not (range_intersecting ls_range range))
    then false
    else range_contained ls_range (record range { range_length = 1 })

-- `pnfs_lseg_range_cmp`, as the pattern of an s64.
unfoldable pub range_cmp : Range → Range → ℕ
range_cmp l1 l2 =
    let d = sub64 l1.offset l2.offset in
    let e = sub64 l2.range_length l1.range_length in
    let r = sub64 (if is_read l1.iomode then 1 else 0) (if is_read l2.iomode then 1 else 0) in
    if d == 0 then if e == 0 then r else e else d

unfoldable pub range_is_after : Range → Range → Bool
unfolding range_cmp
range_is_after l1 l2 = is_pos64 (range_cmp l1 l2)

-- `pnfs_seqid_is_newer`
unfoldable pub seqid_is_newer : ℕ → ℕ → Bool
seqid_is_newer s1 s2 = is_pos32 (sub32 s1 s2)

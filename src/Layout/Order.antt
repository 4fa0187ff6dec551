-- ===== src/Layout/Order.antt =====
-- The order of the segments in a layout's list: mynfs/pnfs.c.
use mathlib.Core.List.{append_assoc}
use mynfs.Base.{
  ◌-◌, ◌^◌, ◌<◌, ◌≡◌, refl, sym, ◌∙◌, ltb, ◌==◌, if◌then◌else◌, Bool, true, false, not, ◌&&◌, ◌||◌,
  List, [], ◌∷◌, ◌++◌, All, Bool-cases, inl, inr, arith,
}
use mynfs.Layout.Range.{Range, is_read, max_uint64, range_cmp, range_is_after}
use mynfs.Layout.Header.{Segment, LayoutHdr}
use mynfs.Layout.Recall.{Walk, begin, keep, mark_lseg_invalid}
use mynfs.Layout.Insert.{
  insert_walk, insert_here, merged, generic_layout_insert_lseg, lseg_no_merge,
}

-- Offsets and lengths below 2 ^ 63, where the subtractions of the comparison do not wrap.
abbrev pub IsSmall : Range → Type 0
IsSmall r = (r.offset < 2 ^ 63) × (r.range_length < 2 ^ 63)

-- "high offset > low offset", "short length > long length", "read > read/write".
abbrev pub later : Range → Range → Bool
later l1 l2 =
    ltb l2.offset l1.offset
    || ((l1.offset == l2.offset)
        && (ltb l1.range_length l2.range_length
            || ((l1.range_length == l2.range_length)
                && (is_read l1.iomode && not (is_read l2.iomode)))))

-- On small ranges the comparison by differences is the order that the comments describe.
pub range_is_after-later :
    (l1 l2 : Range) → IsSmall l1 → IsSmall l2 → range_is_after l1 l2 ≡ later l1 l2
unfolding range_is_after range_cmp
range_is_after-later l1 l2 h k = elim (Bool-cases (is_read l1.iomode)) [
  | inl e ↦ elim (Bool-cases (is_read l2.iomode)) [
    | inl f ↦ rw (e, f) (ground arith)
    | inr f ↦ rw (e, f) (ground arith)
  ]
  | inr e ↦ elim (Bool-cases (is_read l2.iomode)) [
    | inl f ↦ rw (e, f) (ground arith)
    | inr f ↦ rw (e, f) (ground arith)
  ]
]

-- A segment that reaches to the end of the file, compared with a shorter one at the same offset, is
-- said to be after it, though it is the longer of the two: the difference of the lengths wraps.
pub range_is_after_whole_file :
    (l1 l2 : Range)
    → l1.offset ≡ l2.offset
    → l2.range_length ≡ max_uint64
    → l1.range_length < 2 ^ 63 - 1
    → (range_is_after l1 l2 ≡ false) × (range_is_after l2 l1 ≡ true)
unfolding range_is_after range_cmp
range_is_after_whole_file l1 l2 e f h = ground arith

-- Each valid segment comes before the valid ones that it is not after.
abbrev pub IsBefore : Segment → Segment → Type 0
IsBefore s t = s.valid ≡ true → t.valid ≡ true → later s.pls_range t.pls_range ≡ false

abbrev pub IsInOrder : List Segment → Type 0
IsInOrder [] = Unit {0}
IsInOrder (s ∷ ss) = All (IsBefore s) ss × IsInOrder ss

abbrev pub HasSmallRange : Segment → Type 0
HasSmallRange s = IsSmall s.pls_range

-- Insertion into the list by itself.
abbrev insert_ordered : Segment → List Segment → List Segment
insert_ordered lseg [] = lseg ∷ []
insert_ordered lseg (lp ∷ rest) =
    if not lp.valid || later lseg.pls_range lp.pls_range
    then lp ∷ insert_ordered lseg rest
    else lseg ∷ lp ∷ rest

later_asym : (a b : Range) → later a b ≡ true → later b a ≡ false
later_asym a b h = elim (Bool-cases (is_read a.iomode)) [
  | inl e ↦ elim (Bool-cases (is_read b.iomode)) [ inl f ↦ ground arith | inr f ↦ ground arith ]
  | inr e ↦ elim (Bool-cases (is_read b.iomode)) [ inl f ↦ ground arith | inr f ↦ ground arith ]
]

not_later_trans : (a b c : Range) → later a b ≡ false → later b c ≡ false → later a c ≡ false
not_later_trans a b c h k = ground arith

-- The three tests of the walk, of which the second always fails.
chosen :
    (valid after : Bool) (x y z : Walk) (ks xs ys : List Segment)
    → x.lo.plh_segs ≡ ks ++ xs
    → z.lo.plh_segs ≡ ks ++ ys
    → (if not valid then x else if false then y else if after then x else z).lo.plh_segs
      ≡ ks ++ (if not valid || after then xs else ys)
chosen false after x y z ks xs ys h k = h
chosen true true x y z ks xs ys h k = h
chosen true false x y z ks xs ys h k = k

insert_walk-ordered :
    (lseg : Segment) (w : Walk) (ss : List Segment)
    → HasSmallRange lseg
    → All HasSmallRange ss
    → (insert_walk range_is_after lseg_no_merge lseg w ss).lo.plh_segs
      ≡ w.kept ++ insert_ordered lseg ss
unfolding insert_walk
insert_walk-ordered lseg w [] h k = refl
insert_walk-ordered lseg w (lp ∷ rest) h (k, ks) =
    let go = insert_walk range_is_after lseg_no_merge lseg in
    rw (sym (range_is_after-later lseg.pls_range lp.pls_range h k)) (
      chosen lp.valid (range_is_after lseg.pls_range lp.pls_range) (go (keep w lp) rest)
        (go (merged w (mark_lseg_invalid w.lo (w.kept ++ rest) lp)) rest)
        (insert_here lseg w (lp ∷ rest)) w.kept (lp ∷ insert_ordered lseg rest) (lseg ∷ lp ∷ rest)
        (insert_walk-ordered lseg (keep w lp) rest h ks
          ∙ append_assoc w.kept (lp ∷ []) (insert_ordered lseg rest))
        refl)

All-not_later :
    (lseg lp : Segment) (ss : List Segment)
    → lp.valid ≡ true
    → later lseg.pls_range lp.pls_range ≡ false
    → All (IsBefore lp) ss
    → All (IsBefore lseg) ss
All-not_later lseg lp [] v e a = tt
All-not_later lseg lp (s ∷ ss) v e (p, a) = (
  λ b c. not_later_trans lseg.pls_range lp.pls_range s.pls_range e (p v c),
  All-not_later lseg lp ss v e a,
)

All-insert_ordered :
    (P : Segment → Type 0) (lseg : Segment) (ss : List Segment)
    → P lseg
    → All P ss
    → All P (insert_ordered lseg ss)
All-insert_ordered P lseg [] p a = (p, tt)
All-insert_ordered P lseg (s ∷ ss) p (q, a) =
    elim (Bool-cases (not s.valid || later lseg.pls_range s.pls_range)) [
      | inl e ↦ rw e (q, All-insert_ordered P lseg ss p a)
      | inr e ↦ rw e (p, (q, a))
    ]

insert_ordered-IsInOrder :
    (lseg : Segment) (ss : List Segment) → IsInOrder ss → IsInOrder (insert_ordered lseg ss)
insert_ordered-IsInOrder lseg [] o = (tt, tt)
insert_ordered-IsInOrder lseg (s ∷ ss) (a, o) =
    elim (Bool-cases (not s.valid || later lseg.pls_range s.pls_range)) [
      | inl e ↦ rw e (
        All-insert_ordered (IsBefore s) lseg ss
            (λ b c. later_asym lseg.pls_range s.pls_range (ground arith)) a,
        insert_ordered-IsInOrder lseg ss o,
      )
      | inr e ↦
          rw e
            ((λ b c. ground arith, All-not_later lseg s ss (ground arith) (ground arith) a), (a, o))
    ]

-- Inserting a segment keeps the list in order, where the ranges are small.
pub generic_layout_insert_lseg-IsInOrder :
    (lo : LayoutHdr) (lseg : Segment) (free_me : List Segment)
    → HasSmallRange lseg
    → All HasSmallRange lo.plh_segs
    → IsInOrder lo.plh_segs
    → IsInOrder
        (generic_layout_insert_lseg range_is_after lseg_no_merge lseg lo free_me).lo.plh_segs
unfolding generic_layout_insert_lseg
generic_layout_insert_lseg-IsInOrder lo lseg free_me h k o =
    rw (insert_walk-ordered lseg (begin lo free_me false) lo.plh_segs h k)
      (insert_ordered-IsInOrder lseg lo.plh_segs o)

-- ===== src/Layout/Find.antt =====
-- What the segment that is found for a range is good for.
use mynfs.Base.{
  ℕ, suc, ◌+◌, ◌<◌, ◌≡◌, refl, if◌then◌else◌, Bool, true, false, ◌&&◌, Option, none, some, List, [],
  ◌∷◌, All, get_elem?, get_elem?-modify_self, arith,
}
use mynfs.Layout.Range.{
  Range, is_rw, same_iomode, max_uint64, range_match, range_contained, end_offset,
}
use mynfs.Layout.Coverage.{Covers}
use mynfs.Layout.Header.{Segment, LayoutHdr}
use mynfs.Layout.Insert.{find_position, find_lseg, referenced}

range_match_first :
    (a r : Range) (strict : Bool)
    → r.offset < max_uint64
    → range_match a r strict ≡ true
    → Covers a r.offset
      × (is_rw r.iomode ≡ true → is_rw a.iomode ≡ true)
      × (strict ≡ true → same_iomode r.iomode a.iomode ≡ true)
unfolding range_match range_contained end_offset
range_match_first a r strict h e = ground arith

abbrev pub is_match : Range → Bool → Segment → Bool
is_match r strict s = s.valid && range_match s.pls_range r strict

-- A segment that matches at the position found, or none that matches at all.
abbrev pub FirstMatch : List Segment → Range → Bool → Option ℕ → Type 0
FirstMatch ss r strict none = All (λ s. is_match r strict s ≡ false) ss
FirstMatch ss r strict (some n) =
    (s : Segment) × (get_elem? ss n ≡ some s) × (is_match r strict s ≡ true)

FirstMatch-step :
    (s : Segment) (ss : List Segment) (r : Range) (strict b : Bool) (o : Option ℕ)
    → is_match r strict s ≡ b
    → FirstMatch ss r strict o
    → FirstMatch
        (s ∷ ss)
        r
        strict
        (if b then some 0 else elim o [ some n ↦ some (suc n) | none ↦ none ])
FirstMatch-step s ss r strict true o e v = (s, refl, e)
FirstMatch-step s ss r strict false none e v = (e, v)
FirstMatch-step s ss r strict false (some n) e v = v

find_position-FirstMatch :
    (ss : List Segment) (r : Range) (strict : Bool)
    → FirstMatch ss r strict (find_position ss r strict)
unfolding find_position
find_position-FirstMatch [] r strict = tt
find_position-FirstMatch (s ∷ ss) r strict =
    FirstMatch-step s ss r strict (is_match r strict s) (find_position ss r strict) refl
      (find_position-FirstMatch ss r strict)

-- What a lookup promises: the segment found is in the list and valid, covers the first byte asked for,
-- is for writing where that is asked for and has the same mode where the match is strict; its
-- reference count goes up and nothing else changes. Where none is found, no valid segment matches.
abbrev pub FoundFor : LayoutHdr → Range → Bool → LayoutHdr × Option ℕ → Type 0
FoundFor lo r strict (lo', none) = (lo' ≡ lo) × All (λ s. is_match r strict s ≡ false) lo.plh_segs
FoundFor lo r strict (lo', some n) =
    (s : Segment) × (get_elem? lo.plh_segs n ≡ some s)
    × (s.valid ≡ true)
    × Covers s.pls_range r.offset
    × (is_rw r.iomode ≡ true → is_rw s.pls_range.iomode ≡ true)
    × (strict ≡ true → same_iomode r.iomode s.pls_range.iomode ≡ true)
    × (get_elem? lo'.plh_segs n ≡ some (record s { pls_refcount = s.pls_refcount + 1 }))

referenced-FoundFor :
    (lo : LayoutHdr) (r : Range) (strict : Bool) (o : Option ℕ)
    → r.offset < max_uint64
    → FirstMatch lo.plh_segs r strict o
    → FoundFor lo r strict (referenced lo o)
referenced-FoundFor lo r strict none h v = (refl, v)
referenced-FoundFor lo r strict (some n) h (s, e, m) =
    let (c, w, q) = range_match_first s.pls_range r strict h (ground arith) in
    (s, e, ground arith, c, w, q, get_elem?-modify_self lo.plh_segs n _ e)

-- Looking a segment up for a range that does not start at the last offset keeps that promise.
find_lseg-FoundFor :
    (lo : LayoutHdr) (r : Range) (strict : Bool)
    → r.offset < max_uint64
    → FoundFor lo r strict (find_lseg lo r strict)
unfolding find_lseg
find_lseg-FoundFor lo r strict h =
    referenced-FoundFor lo r strict (find_position lo.plh_segs r strict) h
      (find_position-FirstMatch lo.plh_segs r strict)

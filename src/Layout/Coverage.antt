-- ===== src/Layout/Coverage.antt =====
-- What the range tests mean for the bytes that a range covers.
use mynfs.Base.{ℕ, ◌+◌, ◌≤◌, ◌<◌, ◌≡◌, true, ◌⊎◌, ◌↔◌, arith, max}
use mynfs.Layout.Range.{Range, max_uint64, range_intersecting}

-- A range that reaches past the last offset covers every byte from its start on.
abbrev pub Covers : Range → ℕ → Type 0
Covers r x =
    (r.offset ≤ x) × ((max_uint64 ≤ r.offset + r.range_length) ⊎ (x < r.offset + r.range_length))

-- Two ranges that are not empty intersect exactly when some byte is in both.
range_intersecting_iff :
    (a b : Range)
    → a.offset ≤ max_uint64
    → b.offset ≤ max_uint64
    → 0 < a.range_length
    → 0 < b.range_length
    → (range_intersecting a b ≡ true) ↔ ((x : ℕ) × Covers a x × Covers b x)
unfolding range_intersecting
range_intersecting_iff a b ha hb pa pb =
    (λ h. (max a.offset b.offset, ground arith, ground arith), λ (x, ca, cb). ground arith)

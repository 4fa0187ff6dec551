-- ===== src/Attr/Exact.antt =====
-- What the table of gaps says about the changes that were recorded (mynfs/inode.c).
use mynfs.Base.{
  ℕ, zero, suc, ◌+◌, ◌≤◌, ◌<◌, ◌==◌, leb, ◌≡◌, refl, sym, subst, ap, ◌⊎◌, if◌then◌else◌, Bool, true,
  false, ◌||◌, Bool-cases, ==_iff, inl, inr, Option, none, some, List, [], ◌∷◌, ◌++◌, length,
  length-append, get_elem?, arith,
}
use mynfs.Attr.Gaps.{Gap, Ooo, merge_loop, insert_gap}
use mynfs.Attr.Counting.{hit, starts, stops}
use mynfs.Attr.Loop.{Merged, apart, rounds, merge_loop-Ends}

-- The table for the ranges that were recorded: what begins and ends in it is what begins and ends in
-- these, less what cancels, and no gap of it can be merged with another.
pub record Exact (ranges table : List Gap) : Type 0 where
  pub net : (v : ℕ) → starts v table + stops v ranges ≡ stops v table + starts v ranges
  pub reduced : (v : ℕ) → (starts v table == 0 || stops v table == 0) ≡ true

starts-append : (v : ℕ) (a b : List Gap) → starts v (a ++ b) ≡ starts v a + starts v b
starts-append v [] b = omega arith
starts-append v (g ∷ a) b = omega (arith, starts-append v a b)

stops-append : (v : ℕ) (a b : List Gap) → stops v (a ++ b) ≡ stops v a + stops v b
stops-append v [] b = omega arith
stops-append v (g ∷ a) b = omega (arith, stops-append v a b)

apart_none :
    (gaps : List Gap) (start stop : ℕ)
    → ((j : ℕ) (g : Gap) → get_elem? gaps j ≡ some g → apart start stop g ≡ true)
    → (starts stop gaps ≡ 0) × (stops start gaps ≡ 0)
apart_none [] start stop f = (refl, refl)
apart_none (g ∷ gs) start stop f =
    let (p, q) = apart_none gs start stop (λ j k h. f (suc j) k h) in
    (ground (arith, f 0 g refl, p), ground (arith, f 0 g refl, q))

abbrev pub gap_of : ℕ → ℕ → Gap
gap_of start stop = record { start = start; stop = stop }

module _ (ranges table : List Gap) (start stop : ℕ) (gaps : List Gap) (start' stop' : ℕ)
    (x : Exact ranges table) (m : Merged table start stop gaps start' stop') where
  merged_reduced : (v : ℕ) → (starts v gaps == 0 || stops v gaps == 0) ≡ true
  merged_reduced v = ground (arith, x.reduced v, m.fewer_starts v, m.fewer_stops v)

  -- Nothing is left of the range.
  cancelled : start' ≡ stop' → Exact (gap_of start stop ∷ ranges) gaps
  cancelled e = record {
    net = λ v. omega (arith, x.net v, m.kept v, ap (hit v) e);
    reduced = merged_reduced;
  }

  added :
      (start' == stop') ≡ false
      → Exact (gap_of start stop ∷ ranges) (gaps ++ gap_of start' stop' ∷ [])
  added e =
      let left = gap_of start' stop' ∷ [] in
      let (no_start, no_stop) = apart_none gaps start' stop' m.all_apart in
      record {
        net = λ v.
            omega (arith, x.net v, m.kept v, starts-append v gaps left, stops-append v gaps left);
        reduced = λ v. elim (Bool-cases (v == start')) [
          | inl at_start ↦
              let same = (==_iff v start').0 at_start in
              ground (
                arith,
                stops-append v gaps left,
                ap (λ t. stops t gaps) same,
                ap (λ t. t == stop') same,
                no_stop,
                e,
              )
          | inr p ↦ elim (Bool-cases (v == stop')) [
            | inl at_stop ↦
                let same = (==_iff v stop').0 at_stop in
                ground (arith, starts-append v gaps left, ap (λ t. starts t gaps) same, p, no_start)
            | inr q ↦
                ground (
                  arith,
                  starts-append v gaps left,
                  stops-append v gaps left,
                  merged_reduced v,
                  p,
                  q,
                )
          ]
        ];
      }

abbrev pub table_of : Option (List Gap) → List Gap
table_of none = []
table_of (some gaps) = gaps

-- The changes that replies show, from the value after to the one before.
abbrev pub change_of : Option ℕ → Option ℕ → List Gap → List Gap
change_of (some change) (some pre_change) ranges = gap_of change pre_change ∷ ranges
change_of none pre_change ranges = ranges
change_of (some change) none ranges = ranges

module _ (size fuel : ℕ) (f : rounds size + size < fuel) where
  -- The ranges are known exactly, unless it was noted that they are not.
  abbrev pub IsKnown : List Gap → Ooo → Type 0
  IsKnown ranges o =
      (o.defer ≡ true) ⊎ (Exact ranges (table_of o.gaps) × (length (table_of o.gaps) ≤ size))

  abbrev pub Gives : List Gap → Option Ooo → Type 0
  Gives ranges r = (o : Ooo) × (r ≡ some o) × IsKnown ranges o

  insert_gap-IsKnown :
      (ranges table : List Gap) (start stop : ℕ) (gaps : List Gap) (start' stop' : ℕ)
      → Exact ranges table
      → length table ≤ size
      → Merged table start stop gaps start' stop'
      → Gives (gap_of start stop ∷ ranges) (insert_gap size (some (gaps, start', stop')))
  insert_gap-IsKnown ranges table start stop gaps start' stop' x l m =
      by_room (start' == stop') refl
    where
      by_room :
          (b : Bool)
          → (start' == stop') ≡ b
          → Gives (gap_of start stop ∷ ranges) (
              if b
              then some (record { defer = false; gaps = some gaps })
              else if leb size (length gaps)
              then some (record { defer = true; gaps = none })
              else some (record { defer = false; gaps = some (gaps ++ gap_of start' stop' ∷ []) }))
      by_room true e = (
        record { defer = false; gaps = some gaps },
        refl,
        inr (
          cancelled ranges table start stop gaps start' stop' x m ((==_iff start' stop').0 e),
          omega (arith, m.shorter),
        ),
      )
      by_room false e = full (leb size (length gaps)) refl
        where
          full :
              (c : Bool)
              → leb size (length gaps) ≡ c
              → Gives (gap_of start stop ∷ ranges) (
                  if c
                  then some (record { defer = true; gaps = none })
                  else some
                      (record { defer = false; gaps = some (gaps ++ gap_of start' stop' ∷ []) }))
          full true q = (record { defer = true; gaps = none }, refl, inl refl)
          full false q = (
            record { defer = false; gaps = some (gaps ++ gap_of start' stop' ∷ []) },
            refl,
            inr (
              added ranges table start stop gaps start' stop' x m e,
              ground (arith, q, length-append gaps (gap_of start' stop' ∷ [])),
            ),
          )

  pub merged-IsKnown :
      (ranges table : List Gap) (start stop : ℕ)
      → Exact ranges table
      → length table ≤ size
      → Gives (gap_of start stop ∷ ranges) (insert_gap size (merge_loop fuel table 0 start stop))
  merged-IsKnown ranges table start stop x l =
      let (gaps, start', stop', q, m) =
        merge_loop-Ends fuel table 0 start stop (omega arith)
          (omega (arith, f, rounds_le (length table) size l)) (λ j g h. absurd (omega arith)) in
      subst (λ r. Gives (gap_of start stop ∷ ranges) (insert_gap size r)) (sym q)
        (insert_gap-IsKnown ranges table start stop gaps start' stop' x l m)
    where
      rounds_le : (n k : ℕ) → n ≤ k → rounds n ≤ rounds k
      rounds_le zero k h = omega arith
      rounds_le (suc n) zero h = absurd (omega arith)
      rounds_le (suc n) (suc k) h = omega (arith, rounds_le n k (omega arith))

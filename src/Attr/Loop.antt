-- ===== src/Attr/Loop.antt =====
-- The loop of `nfs_ooo_merge` ends, and what it keeps (mynfs/inode.c).
use mynfs.Base.{
  ℕ, zero, suc, ◌+◌, ◌-◌, ◌≤◌, ◌<◌, ◌==◌, ◌≡◌, ◌≢◌, refl, subst, ap, ◌∙◌, Bool, true, false, not,
  ◌&&◌, Bool-cases, Option-cases, ==_iff, inl, inr, none, some, List, length, get_elem?,
  get_elem?-none, get_elem?-some, arith,
}
use mynfs.Attr.Gaps.{Gap, take_out, merge_loop}
use mynfs.Attr.Counting.{hit, starts, stops, Taken, take_out-Taken}

-- The rounds that a table of some length can need, after the first pass.
abbrev pub rounds : ℕ → ℕ
rounds zero = 0
rounds (suc n) = rounds n + n + 1

-- A gap that neither begins where the range ends, nor ends where it begins.
abbrev pub apart : ℕ → ℕ → Gap → Bool
apart start stop g = not (stop == g.start) && not (start == g.stop)

pub record Merged (gaps : List Gap) (start stop : ℕ) (gaps' : List Gap) (start' stop' : ℕ)
    : Type 0 where
  pub kept :
      (v : ℕ)
      → starts v gaps' + hit v start' + (stops v gaps + hit v stop)
        ≡ stops v gaps' + hit v stop' + (starts v gaps + hit v start)
  pub fewer_starts : (v : ℕ) → starts v gaps' ≤ starts v gaps
  pub fewer_stops : (v : ℕ) → stops v gaps' ≤ stops v gaps
  pub shorter : length gaps' ≤ length gaps
  pub all_apart : (j : ℕ) (g : Gap) → get_elem? gaps' j ≡ some g → apart start' stop' g ≡ true

-- A range that the gap `g` was merged with.
Merged-Taken :
    (gaps rest : List Gap) (g : Gap) (start stop start' stop' : ℕ) (gaps' : List Gap)
    (start'' stop'' : ℕ)
    → Taken gaps rest g
    → ((v : ℕ)
        → hit v start' + (hit v g.stop + hit v stop) ≡ hit v stop' + (hit v g.start + hit v start))
    → Merged rest start' stop' gaps' start'' stop''
    → Merged gaps start stop gaps' start'' stop''
Merged-Taken gaps rest g start stop start' stop' gaps' start'' stop'' t e m = record {
  kept = λ v. omega (arith, e v, m.kept v, t.starts_less v, t.stops_less v);
  fewer_starts = λ v. omega (arith, m.fewer_starts v, t.starts_less v);
  fewer_stops = λ v. omega (arith, m.fewer_stops v, t.stops_less v);
  shorter = omega (arith, m.shorter, t.shorter);
  all_apart = m.all_apart;
}

abbrev pub Ends : ℕ → List Gap → ℕ → ℕ → ℕ → Type 0
Ends fuel gaps i start stop =
    (gaps' : List Gap) × (start' : ℕ) × (stop' : ℕ) × (merge_loop fuel gaps i start stop
      ≡ some (gaps', start', stop'))
    × Merged gaps start stop gaps' start' stop'

module _ (fuel : ℕ) (gaps : List Gap) (i start stop : ℕ) where
  loop_end :
      get_elem? gaps i ≡ none → merge_loop (suc fuel) gaps i start stop ≡ some (gaps, start, stop)
  unfolding merge_loop
  loop_end e = rw (e, merge_loop) refl

  loop_stop :
      (g : Gap)
      → get_elem? gaps i ≡ some g
      → (stop == g.start) ≡ true
      → merge_loop (suc fuel) gaps i start stop ≡ merge_loop fuel (take_out gaps i) 0 start g.stop
  unfolding merge_loop
  loop_stop g e p = rw (e, p, merge_loop) refl

  loop_start :
      (g : Gap)
      → get_elem? gaps i ≡ some g
      → (stop == g.start) ≡ false
      → (start == g.stop) ≡ true
      → merge_loop (suc fuel) gaps i start stop ≡ merge_loop fuel (take_out gaps i) 0 g.start stop
  unfolding merge_loop
  loop_start g e p q = rw (e, p, q, merge_loop) refl

  loop_on :
      (g : Gap)
      → get_elem? gaps i ≡ some g
      → (stop == g.start) ≡ false
      → (start == g.stop) ≡ false
      → merge_loop (suc fuel) gaps i start stop ≡ merge_loop fuel gaps (suc i) start stop
  unfolding merge_loop
  loop_on g e p q = rw (e, p, q, merge_loop) refl

no_index : (g : Gap) (gaps : List Gap) (j : ℕ) → length gaps ≤ j → get_elem? gaps j ≢ some g
no_index g gaps j h e = absurd (omega (arith, get_elem?-some gaps j e))

below_next :
    (P : Gap → Type 0) (gaps : List Gap) (i : ℕ) (g : Gap)
    → ((j : ℕ) (k : Gap) → j < i → get_elem? gaps j ≡ some k → P k)
    → get_elem? gaps i ≡ some g
    → P g
    → (j : ℕ) (k : Gap) → j < suc i
    → get_elem? gaps j ≡ some k
    → P k
below_next P gaps i g f e p j k l h = elim (Bool-cases (j == i)) [
  | inl same ↦
      let at_i : get_elem? gaps i ≡ some k =
        subst (λ t. get_elem? gaps t ≡ some k) ((==_iff j i).0 same) h in
      let found : g ≡ k = cc in subst P found p
  | inr other ↦ f j k (ground (arith, l, other)) h
]

-- From any point of a pass on, where no gap before it could be merged, the loop ends with what it
-- should.
pub merge_loop-Ends :
    (fuel : ℕ) (gaps : List Gap) (i start stop : ℕ)
    → i ≤ length gaps
    → rounds (length gaps) + (length gaps - i) < fuel
    → ((j : ℕ) (g : Gap) → j < i → get_elem? gaps j ≡ some g → apart start stop g ≡ true)
    → Ends fuel gaps i start stop
merge_loop-Ends zero gaps i start stop l f b = absurd (omega arith)
merge_loop-Ends (suc fuel) gaps i start stop l f b = elim (Option-cases (get_elem? gaps i)) [
  | inl e ↦ (
    gaps,
    start,
    stop,
    loop_end fuel gaps i start stop e,
    record {
      kept = λ v. omega arith;
      fewer_starts = λ v. omega arith;
      fewer_stops = λ v. omega arith;
      shorter = omega arith;
      all_apart =
          λ j g h. b j g (omega (arith, get_elem?-none gaps i e, get_elem?-some gaps j h)) h;
    },
  )
  | inr (g, e) ↦
      let t = take_out-Taken gaps i g e in
      let rest = take_out gaps i in
      let enough : rounds (length rest) + (length rest - 0) < fuel =
        omega (arith, f, ap rounds t.shorter, get_elem?-some gaps i e) in
      elim (Bool-cases (stop == g.start)) [
        | inl p ↦
            let (gaps', start', stop', q, m) =
              merge_loop-Ends fuel rest 0 start g.stop (omega arith) enough
                (λ j k h. absurd (omega arith)) in
            (
              gaps',
              start',
              stop',
              loop_stop fuel gaps i start stop g e p ∙ q,
              Merged-Taken gaps rest g start stop start g.stop gaps' start' stop' t
                  (λ v. omega (arith, ap (hit v) ((==_iff stop g.start).0 p))) m,
            )
        | inr p ↦ elim (Bool-cases (start == g.stop)) [
          | inl r ↦
              let (gaps', start', stop', q, m) =
                merge_loop-Ends fuel rest 0 g.start stop (omega arith) enough
                  (λ j k h. absurd (omega arith)) in
              (
                gaps',
                start',
                stop',
                loop_start fuel gaps i start stop g e p r ∙ q,
                Merged-Taken gaps rest g start stop g.start stop gaps' start' stop' t
                    (λ v. omega (arith, ap (hit v) ((==_iff start g.stop).0 r))) m,
              )
          | inr r ↦
              let (gaps', start', stop', q, m) =
                merge_loop-Ends fuel gaps (suc i) start stop
                  (omega (arith, get_elem?-some gaps i e))
                  (omega (arith, f, get_elem?-some gaps i e))
                  (below_next (λ k. apart start stop k ≡ true) gaps i g b e
                    (ground (arith, p, r))) in
              (gaps', start', stop', loop_on fuel gaps i start stop g e p r ∙ q, m)
        ]
      ]
]

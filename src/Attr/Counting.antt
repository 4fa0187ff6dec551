-- ===== src/Attr/Counting.antt =====
-- How often a value starts a gap of the table, and how often it ends one (mynfs/inode.c).
use mynfs.Base.{
  ℕ, zero, suc, ◌+◌, ◌==◌, ◌≡◌, refl, subst, if◌then◌else◌, some, List, [], ◌∷◌, length, get_elem?,
  arith,
}
use mynfs.Attr.Gaps.{Gap, put_first, move_last, take_out}

-- 1 where the values agree.
abbrev pub hit : ℕ → ℕ → ℕ
hit v w = if v == w then 1 else 0

abbrev pub starts : ℕ → List Gap → ℕ
starts v [] = 0
starts v (g ∷ gs) = hit v g.start + starts v gs

abbrev pub stops : ℕ → List Gap → ℕ
stops v [] = 0
stops v (g ∷ gs) = hit v g.stop + stops v gs

-- The gap that is taken out, and no other, is gone.
pub record Taken (gaps rest : List Gap) (g : Gap) : Type 0 where
  pub shorter : length gaps ≡ suc (length rest)
  pub starts_less : (v : ℕ) → starts v gaps ≡ hit v g.start + starts v rest
  pub stops_less : (v : ℕ) → stops v gaps ≡ hit v g.stop + stops v rest

length-move_last : (gs : List Gap) → length (move_last gs) ≡ length gs
length-move_last [] = refl
length-move_last (g ∷ gs) = put g (move_last gs) (length-move_last gs)
  where
    put :
        (g : Gap) (ms : List Gap)
        → length ms ≡ length gs
        → length (put_first g ms) ≡ suc (length gs)
    put g [] h = omega (arith, h)
    put g (m ∷ ms) h = omega (arith, h)

starts-put_first :
    (v : ℕ) (g : Gap) (ms : List Gap) → starts v (put_first g ms) ≡ hit v g.start + starts v ms
starts-put_first v g [] = refl
starts-put_first v g (m ∷ ms) = omega arith

starts-move_last : (v : ℕ) (gs : List Gap) → starts v (move_last gs) ≡ starts v gs
starts-move_last v [] = refl
starts-move_last v (g ∷ gs) =
    omega (arith, starts-put_first v g (move_last gs), starts-move_last v gs)

stops-put_first :
    (v : ℕ) (g : Gap) (ms : List Gap) → stops v (put_first g ms) ≡ hit v g.stop + stops v ms
stops-put_first v g [] = refl
stops-put_first v g (m ∷ ms) = omega arith

stops-move_last : (v : ℕ) (gs : List Gap) → stops v (move_last gs) ≡ stops v gs
stops-move_last v [] = refl
stops-move_last v (g ∷ gs) = omega (arith, stops-put_first v g (move_last gs), stops-move_last v gs)

pub take_out-Taken :
    (gaps : List Gap) (i : ℕ) (g : Gap) → get_elem? gaps i ≡ some g → Taken gaps (take_out gaps i) g
take_out-Taken [] i g h = cc
take_out-Taken (x ∷ gaps) zero g h =
    let same : x ≡ g = cc in
    subst (Taken (x ∷ gaps) (move_last gaps)) same (record {
      shorter = omega (arith, length-move_last gaps);
      starts_less = λ v. omega (arith, starts-move_last v gaps);
      stops_less = λ v. omega (arith, stops-move_last v gaps);
    })
take_out-Taken (x ∷ gaps) (suc i) g h =
    let t = take_out-Taken gaps i g h in
    record {
      shorter = omega (arith, t.shorter);
      starts_less = λ v. omega (arith, t.starts_less v);
      stops_less = λ v. omega (arith, t.stops_less v);
    }

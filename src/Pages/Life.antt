-- ===== src/Pages/Life.antt =====
-- All references to a group given back (mynfs/pagelist.c).
use mynfs.Base.{
  ==_self, ℕ, suc, ◌+◌, ◌-◌, ◌<◌, ◌==◌, ◌≡◌, ap, subst, ◌∙◌, if◌then◌else◌, true, Bool-cases, inl,
  inr, Option, none, some, List, [], ◌∷◌, length, arith, ==_iff,
}
use mynfs.Pages.Request.{Store, update}
use mynfs.Pages.Group.{release_request}
use mynfs.Pages.Ring.{mem, every, every-at, every-all}
use mynfs.Pages.Held.{Held, Released, in_use, in_use-zero}
use mynfs.Pages.Freed.{pile}
use mynfs.Pages.Released.{release_request-Released}

-- Calls of `nfs_release_request` one after the other.
abbrev pub then_releases : (Store → Option Store) → Option Store → Option Store
then_releases rest none = none
then_releases rest (some s) = rest s

unfoldable pub releases : ℕ → ℕ → List ℕ → Store → Option Store
releases teardown fuel [] s = some s
releases teardown fuel (r ∷ rs) s =
    then_releases (releases teardown fuel rs) (release_request teardown fuel 2 r s)

abbrev pub occurs : ℕ → List ℕ → ℕ
occurs n [] = 0
occurs n (m ∷ ms) = if n == m then suc (occurs n ms) else occurs n ms

module _ (teardown h : ℕ) (subs : List ℕ) (fuel : ℕ) (f : length subs < fuel) where
  -- The references are those that are given back.
  abbrev Owns : (ℕ → ℕ) → List ℕ → Type 0
  Owns own rs = (n : ℕ) → mem n (h ∷ subs) ≡ true → own n ≡ occurs n rs

  none_owned : (own : ℕ → ℕ) → Owns own [] → own h + in_use own subs ≡ 0
  none_owned own p = ground (
    arith,
    p h (ground (arith, ==_self h)),
    in_use-zero own subs,
    every-all (λ n. own n == 0) subs (λ n m. ground (arith, p n (ground (arith, m)))),
  )

  some_owned :
      (own : ℕ → ℕ) (r : ℕ) (rs : List ℕ)
      → Owns own (r ∷ rs)
      → mem r (h ∷ subs) ≡ true
      → (x : ℕ) × (own h + in_use own subs ≡ suc x)
  some_owned own r rs p m =
      let used : own r ≡ suc (occurs r rs) = ground (arith, p r m, ==_self r) in
      elim (Bool-cases (own h + in_use own subs == 0)) [
        | inl z ↦ absurd (elim (Bool-cases (r == h)) [
          | inl same ↦ ground (arith, ap own ((==_iff r h).0 same), used, z)
          | inr other ↦ ground (
            arith,
            used,
            z,
            every-at (λ n. own n == 0) r subs (in_use-zero own subs ∙ ground (arith, z))
                (ground (arith, m, other)),
          )
        ])
        | inr some_left ↦ (own h + in_use own subs - 1, ground (arith, some_left))
      ]

  Owns-next :
      (own : ℕ → ℕ) (r : ℕ) (rs : List ℕ) → Owns own (r ∷ rs) → Owns (update own r (occurs r rs)) rs
  Owns-next own r rs p n m = elim (Bool-cases (n == r)) [
    | inl same ↦ ground (arith, same, ap (λ t. occurs t rs) ((==_iff n r).0 same))
    | inr other ↦ ground (arith, other, p n m)
  ]

  -- When the users of the members of a group give back all the references that they have, in any
  -- order, then, with fuel for all members, the calls end and every member is freed, once.
  pub releases_free_once :
      (own : ℕ → ℕ) (s : Store) (r : ℕ) (rs : List ℕ)
      → Held teardown h subs own s
      → every (λ n. mem n (h ∷ subs)) (r ∷ rs) ≡ true
      → ((n : ℕ) → mem n (h ∷ subs) ≡ true → own n ≡ occurs n (r ∷ rs))
      → (s' : Store) × (releases teardown fuel (r ∷ rs) s ≡ some s')
        × (s'.freed ≡ pile (h ∷ subs) s.freed)
  unfolding releases
  releases_free_once own s r [] i a p =
      let m : mem r (h ∷ subs) ≡ true = ground (arith, a) in
      let (s', q, outcome) =
        release_request-Released teardown h subs fuel f own s r 0 0 i m
          (ground (arith, p r m, ==_self r)) in
      (
        s',
        ap (then_releases (releases teardown fuel [])) q,
        subst (λ x. Released teardown h subs x (update own r 0) s.freed s')
            (none_owned (update own r 0) (Owns-next own r [] p)) outcome,
      )
  releases_free_once own s r (r' ∷ rs) i a p =
      let m : mem r (h ∷ subs) ≡ true = ground (arith, a) in
      let k = occurs r (r' ∷ rs) in
      let own' = update own r k in
      let (s', q, outcome) =
        release_request-Released teardown h subs fuel f own s r k 0 i m
          (ground (arith, p r m, ==_self r)) in
      let owns' = Owns-next own r (r' ∷ rs) p in
      let (x, e) = some_owned own' r' rs owns' (ground (arith, a)) in
      let (held, same) = subst (λ x. Released teardown h subs x own' s.freed s') e outcome in
      let (s'', q', freed) = releases_free_once own' s' r' rs held (ground (arith, a)) owns' in
      (
        s'',
        ap (then_releases (releases teardown fuel (r' ∷ rs))) q ∙ q',
        freed ∙ ap (pile (h ∷ subs)) same,
      )

-- ===== src/Pages/Extended.antt =====
-- A ring with one request more (mynfs/pagelist.c).
use mynfs.Base.{
  ==_self, ℕ, ◌==◌, ◌≡◌, refl, sym, ap, subst, ◌∙◌, true, false, Bool-cases, inl, inr, List, [],
  ◌∷◌, ◌++◌, arith, ==_iff,
}
use mynfs.Pages.Request.{update}
use mynfs.Pages.Ring.{
  Chain, Chain-append, Chain-split, mem, mem-append, mem-split, distinct, distinct-split, ==_sym,
}
use mynfs.Pages.Freed.{Chain-update}

-- The member that points to the head is the last one.
ends :
    (next : ℕ → ℕ) (a : ℕ) (ms : List ℕ) (h : ℕ)
    → Chain next a ms h
    → a ≡ h
    → mem h ms ≡ false
    → ms ≡ []
ends next a [] h c e m = refl
ends next a (x ∷ ms) h (p, c) e m = absurd (ground (arith, m, (==_iff h x).1 (sym e ∙ p)))

pub distinct-append_new :
    (ms : List ℕ) (n : ℕ) → distinct ms ≡ true → mem n ms ≡ false → distinct (ms ++ n ∷ []) ≡ true
distinct-append_new [] n d m = refl
distinct-append_new (x ∷ ms) n d m = ground (
  arith,
  d,
  m,
  ==_sym x n,
  mem-append x ms (n ∷ []),
  distinct-append_new ms n (ground (arith, d)) (ground (arith, m)),
)

-- The pointers when `req` stands between `prev` and what comes after it.
abbrev pub extended : (ℕ → ℕ) → ℕ → ℕ → ℕ → ℕ
extended next prev req = update (update next req (next prev)) prev req

module _ (next : ℕ → ℕ) (h req : ℕ) where
  extended_alone :
      next h ≡ h
      → (h == req) ≡ false
      → Chain (extended next h req) (extended next h req h) (req ∷ []) h
  extended_alone e a = (ground (arith, ==_self h), ground (arith, ==_self req, ==_sym h req, a, e))

  extended_last :
      (xs : List ℕ) (prev : ℕ)
      → Chain next (next h) xs prev
      → next prev ≡ h
      → mem prev xs ≡ false
      → mem req (h ∷ xs ++ prev ∷ []) ≡ false
      → (h == prev) ≡ false
      → Chain (extended next prev req) (extended next prev req h) ((xs ++ prev ∷ []) ++ req ∷ []) h
  extended_last xs prev c e a b d =
      let next' = extended next prev req in
      let before : Chain next' (next' h) xs prev =
        subst (λ t. Chain next' t xs prev) (sym (ground (arith, ==_sym req h, b, d)))
          (Chain-update (update next req (next prev)) prev req (next h) xs prev a (
            Chain-update next req (next prev) (next h) xs prev
              (ground (arith, b, mem-append req xs (prev ∷ []))) c)) in
      Chain-append next' (next' h) (xs ++ prev ∷ []) req [] h
        (Chain-append next' (next' h) xs prev [] req before (ground (arith, ==_self prev)))
        (ground (arith, ==_self req, ==_sym prev req, b, mem-append req xs (prev ∷ []), e))

  -- A ring in which `prev` points to the head is a ring with one request more after it.
  pub ring_extended :
      (subs : List ℕ) (prev : ℕ)
      → Chain next (next h) subs h
      → distinct (h ∷ subs) ≡ true
      → mem prev (h ∷ subs) ≡ true
      → next prev ≡ h
      → mem req (h ∷ subs) ≡ false
      → Chain (extended next prev req) (extended next prev req h) (subs ++ req ∷ []) h
  ring_extended subs prev c d m e a = elim (Bool-cases (prev == h)) [
    | inl same ↦
        let at_head : prev ≡ h = (==_iff prev h).0 same in
        let alone : next h ≡ h = ap next (sym at_head) ∙ e in
        let empty : subs ≡ [] = ends next (next h) subs h c alone (ground (arith, d)) in
        subst (λ t. Chain (extended next prev req) (extended next prev req h) (t ++ req ∷ []) h)
          (sym empty)
          (subst (λ p. Chain (extended next p req) (extended next p req h) (req ∷ []) h)
            (sym at_head) (extended_alone alone (ground (arith, ==_sym h req, a))))
    | inr other ↦
        let (xs, ys, split) = mem-split prev subs (ground (arith, m, other)) in
        let (c1, c2) =
          Chain-split next (next h) xs prev ys h (subst (λ t. Chain next (next h) t h) split c) in
        let d' : distinct (h ∷ xs ++ prev ∷ ys) ≡ true =
          subst (λ t. distinct (h ∷ t) ≡ true) split d in
        let empty : ys ≡ [] =
          ends next (next prev) ys h c2 e (ground (arith, d', mem-append h xs (prev ∷ ys))) in
        let whole : subs ≡ xs ++ prev ∷ [] = split ∙ ap (λ t. xs ++ prev ∷ t) empty in
        subst (λ t. Chain (extended next prev req) (extended next prev req h) (t ++ req ∷ []) h)
          (sym whole)
          (extended_last xs prev c1 e ((distinct-split xs prev ys (ground (arith, d'))).0)
            (subst (λ t. mem req (h ∷ t) ≡ false) whole a) (ground (arith, ==_sym h prev, other)))
  ]

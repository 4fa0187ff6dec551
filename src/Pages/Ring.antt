-- ===== src/Pages/Ring.antt =====
-- The ring of a group, and what is found on the way around it (mynfs/pagelist.c).
use mynfs.Base.{
  ==_self, ℕ, suc, ◌==◌, ◌≡◌, refl, sym, ap, ◌∙◌, inl, inr, Bool, true, false, not, ◌&&◌, ◌||◌,
  Bool-cases, List, [], ◌∷◌, ◌++◌, length, arith, ==_iff, length-append, subst,
}
use mynfs.Pages.Request.{Store}

abbrev pub mem : ℕ → List ℕ → Bool
mem n [] = false
mem n (m ∷ ms) = n == m || mem n ms

abbrev pub distinct : List ℕ → Bool
distinct [] = true
distinct (m ∷ ms) = not (mem m ms) && distinct ms

abbrev pub every : (ℕ → Bool) → List ℕ → Bool
every p [] = true
every p (m ∷ ms) = p m && every p ms

-- From `a` the pointers lead over the list to `e`.
abbrev pub Chain : (ℕ → ℕ) → ℕ → List ℕ → ℕ → Type 0
Chain next a [] e = a ≡ e
Chain next a (m ∷ ms) e = (a ≡ m) × Chain next (next m) ms e

-- A group with its head and the others in their order.
pub record Group (s : Store) (h : ℕ) (subs : List ℕ) : Type 0 where
  pub ring : Chain s.this_page (s.this_page h) subs h
  pub distinct_members : distinct (h ∷ subs) ≡ true

-- The others, in the order in which they are met from a member on.
pub record Rest (next : ℕ → ℕ) (all : List ℕ) (r : ℕ) : Type 0 where
  pub others : List ℕ
  pub way : Chain next (next r) others r
  pub apart : mem r others ≡ false
  pub short : suc (length others) ≡ length all
  pub same : (p : ℕ → Bool) → every p (r ∷ others) ≡ every p all

pub Chain-append :
    (next : ℕ → ℕ) (a : ℕ) (xs : List ℕ) (m : ℕ) (ys : List ℕ) (e : ℕ)
    → Chain next a xs m
    → Chain next (next m) ys e
    → Chain next a (xs ++ m ∷ ys) e
Chain-append next a [] m ys e p q = (p, q)
Chain-append next a (x ∷ xs) m ys e (h, p) q = (h, Chain-append next (next x) xs m ys e p q)

pub Chain-split :
    (next : ℕ → ℕ) (a : ℕ) (xs : List ℕ) (m : ℕ) (ys : List ℕ) (e : ℕ)
    → Chain next a (xs ++ m ∷ ys) e
    → Chain next a xs m × Chain next (next m) ys e
Chain-split next a [] m ys e (p, q) = (p, q)
Chain-split next a (x ∷ xs) m ys e (h, p) =
    let (q, r) = Chain-split next (next x) xs m ys e p in ((h, q), r)

pub mem-append : (n : ℕ) (xs ys : List ℕ) → mem n (xs ++ ys) ≡ (mem n xs || mem n ys)
mem-append n [] ys = refl
mem-append n (x ∷ xs) ys = ground (arith, mem-append n xs ys)

every-append : (p : ℕ → Bool) (xs ys : List ℕ) → every p (xs ++ ys) ≡ (every p xs && every p ys)
every-append p [] ys = refl
every-append p (x ∷ xs) ys = ground (arith, every-append p xs ys)

pub mem-split :
    (n : ℕ) (ms : List ℕ) → mem n ms ≡ true → (xs : List ℕ) × (ys : List ℕ) × (ms ≡ xs ++ n ∷ ys)
mem-split n [] h = cc
mem-split n (m ∷ ms) h = elim (Bool-cases (n == m)) [
  | inl same ↦ ([], ms, ap (λ k. k ∷ ms) (sym ((==_iff n m).0 same)))
  | inr other ↦
      let (xs, ys, e) = mem-split n ms (ground (arith, h, other)) in (m ∷ xs, ys, ap (λ t. m ∷ t) e)
]

pub ==_sym : (a b : ℕ) → (a == b) ≡ (b == a)
==_sym a b = ground arith

pub distinct-split :
    (xs : List ℕ) (m : ℕ) (ys : List ℕ)
    → distinct (xs ++ m ∷ ys) ≡ true
    → (mem m xs ≡ false) × (mem m ys ≡ false)
distinct-split [] m ys h = (refl, ground (arith, h))
distinct-split (x ∷ xs) m ys h =
    let (p, q) = distinct-split xs m ys (ground (arith, h)) in
    (ground (arith, h, p, mem-append x xs (m ∷ ys), ==_sym x m), q)

module _ (next : ℕ → ℕ) (h r : ℕ) where
  sub-Rest :
      (xs ys : List ℕ)
      → Chain next (next h) (xs ++ r ∷ ys) h
      → distinct (h ∷ xs ++ r ∷ ys) ≡ true
      → Rest next (h ∷ xs ++ r ∷ ys) r
  sub-Rest xs ys c d =
      let (p, q) = Chain-split next (next h) xs r ys h c in
      let (a, b) = distinct-split xs r ys (ground (arith, d)) in
      record {
        others = ys ++ h ∷ xs;
        way = Chain-append next (next r) ys h xs r q p;
        apart =
            ground (arith, a, b, d, mem-append r ys (h ∷ xs), mem-append h xs (r ∷ ys), ==_sym r h);
        short = omega (arith, length-append ys (h ∷ xs), length-append xs (r ∷ ys));
        same = λ p. ground (arith, every-append p ys (h ∷ xs), every-append p xs (r ∷ ys));
      }

-- From every member on, the others are met, each once, and then the member again.
pub Group-Rest :
    (s : Store) (h : ℕ) (subs : List ℕ) (r : ℕ)
    → Group s h subs
    → mem r (h ∷ subs) ≡ true
    → Rest s.this_page (h ∷ subs) r
Group-Rest s h subs r g m = elim (Bool-cases (r == h)) [
  | inl same ↦ subst (Rest s.this_page (h ∷ subs)) (sym ((==_iff r h).0 same)) (record {
    others = subs;
    way = g.ring;
    apart = ground (arith, g.distinct_members);
    short = refl;
    same = λ p. refl;
  })
  | inr other ↦
      let (xs, ys, e) = mem-split r subs (ground (arith, m, other)) in
      subst (λ t. Rest s.this_page (h ∷ t) r) (sym e)
        (sub-Rest s.this_page h r xs ys
          (subst (λ t. Chain s.this_page (s.this_page h) t h) e g.ring)
          (subst (λ t. distinct (h ∷ t) ≡ true) e g.distinct_members))
]

pub every-at :
    (p : ℕ → Bool) (n : ℕ) (ms : List ℕ) → every p ms ≡ true → mem n ms ≡ true → p n ≡ true
every-at p n [] h m = cc
every-at p n (k ∷ ms) h m = elim (Bool-cases (n == k)) [
  | inl same ↦ subst (λ j. p j ≡ true) (sym ((==_iff n k).0 same)) (ground (arith, h))
  | inr other ↦ every-at p n ms (ground (arith, h)) (ground (arith, m, other))
]

pub every-all :
    (p : ℕ → Bool) (ms : List ℕ) → ((n : ℕ) → mem n ms ≡ true → p n ≡ true) → every p ms ≡ true
every-all p [] f = refl
every-all p (m ∷ ms) f =
    ground (arith, f m (ground (arith, ==_self m)), every-all p ms (λ n h. f n (ground (arith, h))))

pub every-false :
    (p : ℕ → Bool) (n : ℕ) (ms : List ℕ) → mem n ms ≡ true → p n ≡ false → every p ms ≡ false
every-false p n ms m h = elim (Bool-cases (every p ms)) [
  | inl all ↦ absurd (ground (arith, every-at p n ms all m, h))
  | inr some ↦ some
]

mem-every : (n : ℕ) (ms : List ℕ) → mem n ms ≡ not (every (λ m. not (n == m)) ms)
mem-every n [] = refl
mem-every n (m ∷ ms) = ground (arith, mem-every n ms)

-- The way around meets the members and no others.
pub mem-Rest :
    (next : ℕ → ℕ) (all : List ℕ) (r n : ℕ) (rest : Rest next all r)
    → mem n (r ∷ rest.others) ≡ mem n all
mem-Rest next all r n rest =
    mem-every n (r ∷ rest.others) ∙ ap not (rest.same (λ m. not (n == m))) ∙ sym (mem-every n all)

pub mem_ne : (n r : ℕ) (ms : List ℕ) → mem n ms ≡ true → mem r ms ≡ false → (n == r) ≡ false
mem_ne n r ms p q = elim (Bool-cases (n == r)) [
  | inl same ↦ absurd (ground (arith, subst (λ t. mem t ms ≡ true) ((==_iff n r).0 same) p, q))
  | inr other ↦ other
]

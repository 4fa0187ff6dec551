-- ===== src/Io/Stepped.antt =====
-- What one step of a thread does to the lock and the flag.
use mynfs.Base.{
  ℕ, ◌≡◌, refl, sym, ap, subst, ◌∙◌, ◌≢◌, ◌==◌, if◌then◌else◌, Bool, true, false, Option, none,
  some, Bool-cases, inl, inr, arith,
}
use mynfs.Io.Rwsem.{Rwsem}
use mynfs.Io.Steps.{
  io_read, io_write, io_direct, wanted, Pc, idle, starting, testing, unlucky, unlocked, flipping,
  flipped, active, advance, locked,
}

-- How a thread holds the lock, by where it is.
abbrev pub has_shared : Pc → Bool
has_shared (testing k) = true
has_shared (unlucky k) = true
has_shared (active io_read) = true
has_shared (active io_direct) = true
has_shared _ = false

abbrev pub has_exclusive : Pc → Bool
has_exclusive (flipping k) = true
has_exclusive (flipped k) = true
has_exclusive (active io_write) = true
has_exclusive _ = false

-- Where the flag must be what the operation needs.
abbrev pub NeedsFlag : Bool → Pc → Type 0
NeedsFlag d (flipped k) = d ≡ wanted k
NeedsFlag d (active k) = d ≡ wanted k
NeedsFlag d _ = Unit {0}

module _ {R : Type 0} (L : Rwsem R) where
  -- What one step of a thread does: the thread's own place, lock and flag agree again, the lock of the
  -- others is as it was, and the flag is too unless the thread held the lock exclusively.
  pub record Stepped (i : ℕ) (p : Pc) (d : Bool) (r : R) (d' : Bool) (r' : R) (p' : Pc)
      : Type 0 where
    pub own : (L.shared r' i ≡ has_shared p') × (L.exclusive r' i ≡ has_exclusive p')
    pub own_flag : NeedsFlag d' p'
    pub others :
        (j : ℕ) → i ≢ j → (L.shared r' j ≡ L.shared r j) × (L.exclusive r' j ≡ L.exclusive r j)
    pub same_flag : has_exclusive p ≡ false → d' ≡ d

  -- The lock of the thread becomes `s` and `x`, that of the others stays.
  abbrev pub Changed : ℕ → Bool → Bool → R → R → Type 0
  Changed i s x r r' =
      (j : ℕ)
      → (L.shared r' j ≡ (if i == j then s else L.shared r j))
        × (L.exclusive r' j ≡ (if i == j then x else L.exclusive r j))

  pub Changed-Stepped :
      (i : ℕ) (p : Pc) (d : Bool) (r : R) (d' : Bool) (r' : R) (p' : Pc)
      → Changed i (has_shared p') (has_exclusive p') r r'
      → NeedsFlag d' p'
      → (has_exclusive p ≡ false → d' ≡ d)
      → Stepped i p d r d' r' p'
  Changed-Stepped i p d r d' r' p' c n f = record {
    own = (ground (arith, c i), ground (arith, c i));
    own_flag = n;
    others = λ j h. (ground (arith, c j), ground (arith, c j));
    same_flag = f;
  }

  pub same-Changed :
      (i : ℕ) (r : R) (s x : Bool) → L.shared r i ≡ s → L.exclusive r i ≡ x → Changed i s x r r
  same-Changed i r s x a b j = elim (Bool-cases (i == j)) [
    | inl e ↦
        let q : i ≡ j = ground arith in
        rw e (ap (L.shared r) (sym q) ∙ a, ap (L.exclusive r) (sym q) ∙ b)
    | inr e ↦ rw e (refl, refl)
  ]

  -- Each operation on the lock, where the thread held it as the operation expects.
  down_read-Changed :
      (i : ℕ) (r r' : R)
      → L.exclusive r i ≡ false
      → L.down_read r i ≡ some r'
      → Changed i true false r r'
  down_read-Changed i r r' b e j =
      let (s, x) = L.read_locked r r' i j e in
      (s, x ∙ (same-Changed i r (L.shared r i) false refl b j).1)

  up_read-Changed :
      (i : ℕ) (r r' : R)
      → L.exclusive r i ≡ false
      → L.up_read r i ≡ some r'
      → Changed i false false r r'
  up_read-Changed i r r' b e j =
      let (s, x) = L.read_unlocked r r' i j e in
      (s, x ∙ (same-Changed i r (L.shared r i) false refl b j).1)

  down_write-Changed :
      (i : ℕ) (r r' : R)
      → L.shared r i ≡ false
      → L.down_write r i ≡ some r'
      → Changed i false true r r'
  down_write-Changed i r r' a e j =
      let (s, x) = L.write_locked r r' i j e in
      (s ∙ (same-Changed i r false (L.exclusive r i) a refl j).0, x)

  up_write-Changed :
      (i : ℕ) (r r' : R)
      → L.shared r i ≡ false
      → L.up_write r i ≡ some r'
      → Changed i false false r r'
  up_write-Changed i r r' a e j =
      let (s, x) = L.write_unlocked r r' i j e in
      (s ∙ (same-Changed i r false (L.exclusive r i) a refl j).0, x)

  -- A step on the lock ends at the place given and leaves the flag.
  locked-Stepped :
      (i : ℕ) (p q : Pc) (d : Bool) (r : R) (o : Option R) (d' : Bool) (r' : R) (p' : Pc)
      → ((r'' : R) → o ≡ some r'' → Changed i (has_shared q) (has_exclusive q) r r'')
      → NeedsFlag d q
      → locked L q d o ≡ some (d', r', p')
      → Stepped i p d r d' r' p'
  locked-Stepped i p q d r none d' r' p' c n e = absurd (cc)
  locked-Stepped i p q d r (some r'') d' r' p' c n e =
      let e0 : d ≡ d' = cc in
      let e1 : r'' ≡ r' = cc in
      let e2 : q ≡ p' = cc in
      subst (λ d'. Stepped i p d r d' r' p') e0
        (subst (λ r'. Stepped i p d r d r' p') e1
          (subst (λ p'. Stepped i p d r d r'' p') e2
            (Changed-Stepped i p d r d r'' q (c r'' refl) n (λ _. refl))))

  -- A step that leaves the lock.
  unlocked-Stepped :
      (i : ℕ) (p q : Pc) (d d0 : Bool) (r : R) (d' : Bool) (r' : R) (p' : Pc)
      → L.shared r i ≡ has_shared q
      → L.exclusive r i ≡ has_exclusive q
      → NeedsFlag d0 q
      → (has_exclusive p ≡ false → d0 ≡ d)
      → locked L q d0 (some r) ≡ some (d', r', p')
      → Stepped i p d r d' r' p'
  unlocked-Stepped i p q d d0 r d' r' p' a b n f e =
      let e0 : d0 ≡ d' = cc in
      let e1 : r ≡ r' = cc in
      let e2 : q ≡ p' = cc in
      subst (λ d'. Stepped i p d r d' r' p') e0
        (subst (λ r'. Stepped i p d r d0 r' p') e1
          (subst (λ p'. Stepped i p d r d0 r p') e2
            (Changed-Stepped i p d r d0 r q (same-Changed i r _ _ a b) n f)))

  pub advance-Stepped :
      (i : ℕ) (p : Pc) (d : Bool) (r : R) (d' : Bool) (r' : R) (p' : Pc)
      → L.shared r i ≡ has_shared p
      → L.exclusive r i ≡ has_exclusive p
      → NeedsFlag d p
      → advance L p d r i ≡ some (d', r', p')
      → Stepped i p d r d' r' p'
  unfolding advance
  advance-Stepped i idle d r d' r' p' a b c e = absurd (cc)
  advance-Stepped i (starting io_read) d r d' r' p' a b c e =
      locked-Stepped i _ _ d r _ d' r' p' (λ r''. down_read-Changed i r r'' b) tt e
  advance-Stepped i (starting io_direct) d r d' r' p' a b c e =
      locked-Stepped i _ _ d r _ d' r' p' (λ r''. down_read-Changed i r r'' b) tt e
  advance-Stepped i (starting io_write) d r d' r' p' a b c e =
      locked-Stepped i _ _ d r _ d' r' p' (λ r''. down_write-Changed i r r'' a) tt e
  advance-Stepped i (testing io_write) d r d' r' p' a b c e = absurd (cc)
  advance-Stepped i (testing io_read) true r d' r' p' a b c e =
      unlocked-Stepped i _ _ true true r d' r' p' a b tt (λ _. refl) e
  advance-Stepped i (testing io_read) false r d' r' p' a b c e =
      unlocked-Stepped i _ _ false false r d' r' p' a b refl (λ _. refl) e
  advance-Stepped i (testing io_direct) true r d' r' p' a b c e =
      unlocked-Stepped i _ _ true true r d' r' p' a b refl (λ _. refl) e
  advance-Stepped i (testing io_direct) false r d' r' p' a b c e =
      unlocked-Stepped i _ _ false false r d' r' p' a b tt (λ _. refl) e
  advance-Stepped i (unlucky k) d r d' r' p' a b c e =
      locked-Stepped i _ _ d r _ d' r' p' (λ r''. up_read-Changed i r r'' b) tt e
  advance-Stepped i (unlocked k) d r d' r' p' a b c e =
      locked-Stepped i _ _ d r _ d' r' p' (λ r''. down_write-Changed i r r'' a) tt e
  advance-Stepped i (flipping k) d r d' r' p' a b c e =
      unlocked-Stepped i _ _ d (wanted k) r d' r' p' a b refl (λ h. absurd (cc)) e
  advance-Stepped i (flipped io_write) d r d' r' p' a b c e =
      unlocked-Stepped i _ _ d d r d' r' p' a b c (λ _. refl) e
  advance-Stepped i (flipped io_read) d r d' r' p' a b c e =
      locked-Stepped i _ _ d r _ d' r' p' (λ r'' h j. L.downgraded r r'' i j h) c e
  advance-Stepped i (flipped io_direct) d r d' r' p' a b c e =
      locked-Stepped i _ _ d r _ d' r' p' (λ r'' h j. L.downgraded r r'' i j h) c e
  advance-Stepped i (active io_write) d r d' r' p' a b c e =
      locked-Stepped i _ _ d r _ d' r' p' (λ r''. up_write-Changed i r r'' a) tt e
  advance-Stepped i (active io_read) d r d' r' p' a b c e =
      locked-Stepped i _ _ d r _ d' r' p' (λ r''. up_read-Changed i r r'' b) tt e
  advance-Stepped i (active io_direct) d r d' r' p' a b c e =
      locked-Stepped i _ _ d r _ d' r' p' (λ r''. up_read-Changed i r r'' b) tt e

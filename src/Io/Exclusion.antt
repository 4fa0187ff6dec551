-- ===== src/Io/Exclusion.antt =====
-- No buffered operation runs beside a direct one.
use mynfs.Base.{
  ℕ, ◌≡◌, refl, sym, ap, subst, ◌∙◌, ◌≢◌, ◌==◌, Bool, true, false, Bool-cases, inl, inr, arith,
}
use mynfs.Io.Rwsem.{Rwsem}
use mynfs.Io.Steps.{
  IoKind, io_read, io_write, io_direct, wanted, Pc, idle, starting, testing, unlucky, unlocked,
  flipping, flipped, active, World, put, Step, call, run, Reachable, initial, later,
}
use mynfs.Io.Stepped.{
  has_shared, has_exclusive, NeedsFlag, Stepped, Changed-Stepped, same-Changed, advance-Stepped,
}

module _ {R : Type 0} (L : Rwsem R) where
  -- The lock, the flag and the places of the threads agree.
  pub record IsSafe (w : World L) : Type 0 where
    pub shared : (i : ℕ) → L.shared w.sem i ≡ has_shared (w.pcs i)
    pub exclusive : (i : ℕ) → L.exclusive w.sem i ≡ has_exclusive (w.pcs i)
    pub flag : (i : ℕ) → NeedsFlag w.odirect (w.pcs i)

  -- A thread that does not hold the lock needs nothing of the flag.
  NeedsFlag-free :
      (p : Pc) (d : Bool) → has_shared p ≡ false → has_exclusive p ≡ false → NeedsFlag d p
  NeedsFlag-free idle d a b = tt
  NeedsFlag-free (starting k) d a b = tt
  NeedsFlag-free (testing k) d a b = tt
  NeedsFlag-free (unlucky k) d a b = tt
  NeedsFlag-free (unlocked k) d a b = tt
  NeedsFlag-free (flipping k) d a b = tt
  NeedsFlag-free (flipped k) d a b = absurd (cc)
  NeedsFlag-free (active io_read) d a b = absurd (cc)
  NeedsFlag-free (active io_write) d a b = absurd (cc)
  NeedsFlag-free (active io_direct) d a b = absurd (cc)

  -- The flag that another thread leaves is one that this thread can live with.
  others_flag :
      (w : World L) (i j : ℕ) (d' : Bool)
      → IsSafe w
      → i ≢ j
      → (has_exclusive (w.pcs i) ≡ false → d' ≡ w.odirect)
      → NeedsFlag d' (w.pcs j)
  others_flag w i j d' v h f = elim (Bool-cases (has_exclusive (w.pcs i))) [
    | inl e ↦
        let (a, b) = L.excluded w.sem i j (v.exclusive i ∙ e) h in
        NeedsFlag-free (w.pcs j) d' (sym (v.shared j) ∙ a) (sym (v.exclusive j) ∙ b)
    | inr e ↦ subst (λ d. NeedsFlag d (w.pcs j)) (sym (f e)) (v.flag j)
  ]

  Stepped-IsSafe :
      (w : World L) (i : ℕ) (d' : Bool) (r' : R) (p' : Pc)
      → IsSafe w
      → Stepped L i (w.pcs i) w.odirect w.sem d' r' p'
      → IsSafe (record { odirect = d'; sem = r'; pcs = put L w.pcs i p' })
  Stepped-IsSafe w i d' r' p' v s = record {
    shared = λ j. elim (Bool-cases (i == j)) [
      | inl e ↦ rw e (subst (λ j. L.shared r' j ≡ has_shared p') (ground arith) s.own.0)
      | inr e ↦ rw e ((s.others j (ground arith)).0 ∙ v.shared j)
    ];
    exclusive = λ j. elim (Bool-cases (i == j)) [
      | inl e ↦ rw e (subst (λ j. L.exclusive r' j ≡ has_exclusive p') (ground arith) s.own.1)
      | inr e ↦ rw e ((s.others j (ground arith)).1 ∙ v.exclusive j)
    ];
    flag = λ j. elim (Bool-cases (i == j)) [
      | inl e ↦ rw e s.own_flag
      | inr e ↦ rw e (others_flag w i j d' v (ground arith) s.same_flag)
    ];
  }

  Step-IsSafe : (w w' : World L) → IsSafe w → Step L w w' → IsSafe w'
  Step-IsSafe _ _ v (call w i k h) = Stepped-IsSafe w i w.odirect w.sem (starting k) v (
      Changed-Stepped L i (w.pcs i) w.odirect w.sem w.odirect w.sem (starting k)
        (same-Changed L i w.sem false false (v.shared i ∙ ap has_shared h)
          (v.exclusive i ∙ ap has_exclusive h))
        tt (λ _. refl))
  Step-IsSafe _ _ v (run w i d r p e) = Stepped-IsSafe w i d r p v (
      advance-Stepped L i (w.pcs i) w.odirect w.sem d r p (v.shared i) (v.exclusive i) (v.flag i) e)

  Reachable-IsSafe : (w : World L) → Reachable L w → IsSafe w
  Reachable-IsSafe _ (initial w h n) = record {
    shared = λ i. (n i).0 ∙ sym (ap has_shared (h i));
    exclusive = λ i. (n i).1 ∙ sym (ap has_exclusive (h i));
    flag = λ i. subst (NeedsFlag w.odirect) (sym (h i)) tt;
  }
  Reachable-IsSafe _ (later w w' r s) = Step-IsSafe w w' (Reachable-IsSafe w r) s

  -- In every state that the threads can reach, whatever the order of their steps: while one thread
  -- does direct input or output, the flag is set and no thread does a buffered read or write.
  pub direct_excludes_buffered :
      (w : World L) (i : ℕ)
      → Reachable L w
      → w.pcs i ≡ active io_direct
      → (w.odirect ≡ true) × ((j : ℕ) → (w.pcs j ≢ active io_read) × (w.pcs j ≢ active io_write))
  direct_excludes_buffered w i r h =
      let v = Reachable-IsSafe w r in
      let f : w.odirect ≡ true = subst (NeedsFlag w.odirect) h (v.flag i) in
      let no : (j : ℕ) (k : IoKind) → w.pcs j ≡ active k → w.odirect ≡ wanted k =
        λ j k e. subst (NeedsFlag w.odirect) e (v.flag j) in
      (
        f,
        λ j. (
          λ e. let q = no j io_read e in absurd (cc),
          λ e. let q = no j io_write e in absurd (cc),
        ),
      )

  active_holds : (k : IoKind) → has_shared (active k) ≡ false → has_exclusive (active k) ≢ false
  active_holds io_read a b = absurd (cc)
  active_holds io_write a b = absurd (cc)
  active_holds io_direct a b = absurd (cc)

  -- While one thread does a buffered write, no other thread does any input or output.
  write_excludes_all :
      (w : World L) (i j : ℕ) (k : IoKind)
      → Reachable L w
      → w.pcs i ≡ active io_write
      → i ≢ j
      → w.pcs j ≢ active k
  write_excludes_all w i j k r h n e =
      let v = Reachable-IsSafe w r in
      let (a, b) = L.excluded w.sem i j (v.exclusive i ∙ ap has_exclusive h) n in
      active_holds k (ap has_shared (sym e) ∙ sym (v.shared j) ∙ a)
        (ap has_exclusive (sym e) ∙ sym (v.exclusive j) ∙ b)

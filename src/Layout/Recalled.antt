-- ===== src/Layout/Recalled.antt =====
-- What a walk that invalidates segments leaves behind.
use mathlib.Core.List.{append-nil, append_assoc}
use mynfs.Base.{
  ℕ, ◌+◌, ◌≡◌, refl, sym, ap, subst, ◌∙◌, ◌-◌, ltb, ◌==◌, not, ◌||◌, if◌then◌else◌, Bool, true,
  false, List, [], ◌∷◌, ◌++◌, All, length, length-append, Bool-cases, inl, inr, arith,
}
use mynfs.Layout.Header.{Segment, LayoutHdr}
use mynfs.Layout.Recall.{
  Walk, walk_segs, settle, keep, doom, mark_lseg_invalid, lseg_dec_and_remove_zero,
  layout_remove_lseg,
}

-- The segments that a test takes, and those that it leaves.
abbrev pub matching : (Segment → Bool) → List Segment → List Segment
matching test [] = []
matching test (s ∷ ss) = if test s then s ∷ matching test ss else matching test ss

abbrev pub others : (Segment → Bool) → List Segment → List Segment
others test [] = []
others test (s ∷ ss) = if test s then others test ss else s ∷ others test ss

matching-append :
    (test : Segment → Bool) (xs ys : List Segment)
    → matching test (xs ++ ys) ≡ matching test xs ++ matching test ys
matching-append test [] ys = refl
matching-append test (x ∷ xs) ys = ground (arith, matching-append test xs ys)

others-append :
    (test : Segment → Bool) (xs ys : List Segment)
    → others test (xs ++ ys) ≡ others test xs ++ others test ys
others-append test [] ys = refl
others-append test (x ∷ xs) ys = ground (arith, others-append test xs ys)

All-append : (P : Segment → Type 0) (xs ys : List Segment) → All P xs → All P ys → All P (xs ++ ys)
All-append P [] ys a b = b
All-append P (x ∷ xs) ys (p, a) b = (p, All-append P xs ys a b)

-- A segment that matched and stayed is invalid, and marked for return where `marked` asks for it.
abbrev pub IsDone : Bool → Segment → Type 0
IsDone marked s = (s.valid ≡ false) × (marked ≡ true → s.layoutreturn ≡ true)

-- Whether a segment has users beside the list, or was invalid before: then it stays.
abbrev pub in_use : Segment → Bool
in_use s = not s.valid || ltb 1 s.pls_refcount

-- What becomes of such a segment: it loses the reference of the list if it was valid.
abbrev pub left_invalid : Bool → Segment → Segment
left_invalid marked s = record s {
  pls_refcount = if s.valid then s.pls_refcount - 1 else s.pls_refcount;
  valid = false;
  layoutreturn = if marked then true else s.layoutreturn;
}

-- The segments in use, in their order, as they are left.
abbrev pub staying : Bool → List Segment → List Segment
staying marked [] = []
staying marked (s ∷ ss) =
    if in_use s then left_invalid marked s ∷ staying marked ss else staying marked ss

staying-append :
    (marked : Bool) (xs ys : List Segment)
    → staying marked (xs ++ ys) ≡ staying marked xs ++ staying marked ys
staying-append marked [] ys = refl
staying-append marked (x ∷ xs) ys = ground (arith, staying-append marked xs ys)

-- Every segment that a walk has met, wherever it is now.
abbrev pub held : Walk → ℕ
held w = length w.kept + length w.tmp_list + length w.lo.plh_return_segs

doom_lem :
    (w : Walk) (s : Segment)
    → ((doom w s).kept ≡ w.kept)
      × ((doom w s).remaining ≡ w.remaining)
      × (held (doom w s) ≡ held w + 1)
doom_lem w s = elim (Bool-cases w.to_return) [
  | inl e ↦ rw e (refl, refl, omega arith)
  | inr e ↦ rw e (refl, refl, omega arith)
]

module _ (test : Segment → Bool) (marked : Bool) where
  -- One visit adds at most the segment to those kept: as it was where it does not match, and done and
  -- counted where it does.
  pub record Visited (w : Walk) (s : Segment) (w' : Walk) : Type 0 where
    pub added : List Segment
    pub kept_added : w'.kept ≡ w.kept ++ added
    pub counted : w'.remaining ≡ w.remaining + length (matching test added)
    pub done : All (IsDone marked) (matching test added)
    pub same : others test added ≡ others test (s ∷ [])
    pub stays : matching test added ≡ staying marked (matching test (s ∷ []))
    pub none_lost : held w' ≡ held w + 1

  -- A walk over `ss`, compared with where it started.
  pub record Walked (w : Walk) (ss : List Segment) (w' : Walk) : Type 0 where
    pub added : List Segment
    pub kept_added : w'.lo.plh_segs ≡ w.kept ++ added
    pub counted : w'.remaining ≡ w.remaining + length (matching test added)
    pub done : All (IsDone marked) (matching test added)
    pub same : others test added ≡ others test ss
    pub stays : matching test added ≡ staying marked (matching test ss)
    pub none_lost :
        length w'.lo.plh_segs + length w'.tmp_list + length w'.lo.plh_return_segs
        ≡ held w + length ss

  pub walk_segs-Walked :
      (visit : Walk → Segment → List Segment → Walk)
      → ((w : Walk) (s : Segment) (rest : List Segment) → Visited w s (visit w s rest))
      → (w : Walk) (ss : List Segment) → Walked w ss (walk_segs visit w ss)
  walk_segs-Walked visit step w [] = record {
    added = [];
    kept_added = sym (append-nil w.kept);
    counted = omega arith;
    done = tt;
    same = refl;
    stays = refl;
    none_lost = omega arith;
  }
  walk_segs-Walked visit step w (s ∷ ss) =
      let v = step w s ss in
      let k = walk_segs-Walked visit step (visit w s ss) ss in
      record {
        added = v.added ++ k.added;
        kept_added =
            k.kept_added
            ∙ ap (λ xs. xs ++ k.added) v.kept_added
            ∙ append_assoc w.kept v.added k.added;
        counted = omega (
          arith,
          k.counted,
          v.counted,
          ap length (matching-append test v.added k.added),
          length-append (matching test v.added) (matching test k.added),
        );
        done = subst (All (IsDone marked)) (sym (matching-append test v.added k.added)) (
            All-append (IsDone marked) (matching test v.added) (matching test k.added) v.done
              k.done);
        same =
            others-append test v.added k.added
            ∙ ap (λ xs. xs ++ others test k.added) v.same
            ∙ ap (λ xs. others test (s ∷ []) ++ xs) k.same
            ∙ sym (others-append test (s ∷ []) ss);
        stays =
            matching-append test v.added k.added
            ∙ ap (λ xs. xs ++ matching test k.added) v.stays
            ∙ ap (λ xs. staying marked (matching test (s ∷ [])) ++ xs) k.stays
            ∙ sym (staying-append marked (matching test (s ∷ [])) (matching test ss))
            ∙ ap (staying marked) (sym (matching-append test (s ∷ []) ss));
        none_lost = omega (arith, v.none_lost, k.none_lost);
      }

  pub keep-Visited : (w : Walk) (s : Segment) → test s ≡ false → Visited w s (keep w s)
  keep-Visited w s e = record {
    added = s ∷ [];
    kept_added = refl;
    counted = ground arith;
    done = rw e tt;
    same = refl;
    stays = rw e refl;
    none_lost = omega (arith, length-append w.kept (s ∷ []));
  }

  -- What marking a segment that matches gives: it is invalid now, matches as before, and the list of
  -- segments to return is as it was; it leaves the list exactly where it is not in use.
  abbrev pub Marks : LayoutHdr → Segment → LayoutHdr × Segment × Bool → Type 0
  Marks lo s (lo', s', removed) =
      (s'.valid ≡ false)
      × ((b : Bool) → test (record s' { layoutreturn = b }) ≡ true)
      × (lo'.plh_return_segs ≡ lo.plh_return_segs)
      × (removed ≡ not (in_use s))
      × ((b : Bool)
          → record s' { layoutreturn = b } ≡ record (left_invalid marked s) { layoutreturn = b })

  pub settle-Visited :
      (w : Walk) (s : Segment) (to_return flag : Bool) (r : LayoutHdr × Segment × Bool)
      → test s ≡ true
      → flag ≡ (if marked then true else s.layoutreturn)
      → Marks w.lo s r
      → Visited w s (settle (record w { to_return = to_return }) flag r)
  settle-Visited w s to_return flag (lo, s', true) e f (a, b, c, d, g) =
      let (k, r, l) = doom_lem (record w { lo = lo; to_return = to_return }) s' in
      record {
        added = [];
        kept_added = k ∙ sym (append-nil w.kept);
        counted = omega (arith, r);
        done = tt;
        same = ground arith;
        stays = rw e (ground arith);
        none_lost = omega (arith, l, ap length c);
      }
  settle-Visited w s to_return flag (lo, s', false) e f (a, b, c, d, g) =
      let q = b flag in
      let used : in_use s ≡ true = ground arith in
      record {
        added = record s' { layoutreturn = flag } ∷ [];
        kept_added = refl;
        counted = rw q (omega arith);
        done = rw q ((a, λ h. f ∙ ap (λ m. if m then true else s.layoutreturn) h), tt);
        same = rw (q, e) refl;
        stays =
            rw (q, e, used)
              (ap (λ x. x ∷ [])
                (g flag ∙ ap (λ b. record (left_invalid marked s) { layoutreturn = b }) f));
        none_lost =
            omega
              (arith, ap length c, length-append w.kept (record s' { layoutreturn = flag } ∷ []));
      }

  -- The segment as `mark_lseg_invalid` leaves it, by whether it was valid.
  marked_segment :
      (lo : LayoutHdr) (rest : List Segment) (s : Segment) (b : Bool)
      → record (mark_lseg_invalid lo rest s).1 { layoutreturn = b }
        ≡ record (left_invalid marked s) { layoutreturn = b }
  unfolding mark_lseg_invalid lseg_dec_and_remove_zero
  marked_segment lo rest s b = elim (Bool-cases s.valid) [
    | inl e ↦ elim (Bool-cases (s.pls_refcount - 1 == 0)) [
      | inl f ↦ rw (e, f) refl
      | inr f ↦ rw (e, f) refl
    ]
    | inr e ↦ rw e refl
  ]

  pub mark_lseg_invalid-Marks :
      (lo : LayoutHdr) (rest : List Segment) (s : Segment)
      → ((s' : Segment) → s'.pls_range ≡ s.pls_range → s'.pls_seq ≡ s.pls_seq → test s' ≡ true)
      → Marks lo s (mark_lseg_invalid lo rest s)
  unfolding mark_lseg_invalid lseg_dec_and_remove_zero layout_remove_lseg
  mark_lseg_invalid-Marks lo rest s k = (
    ground arith,
    λ b. k _ (ground arith) (ground arith),
    ground arith,
    ground arith,
    marked_segment lo rest s,
  )

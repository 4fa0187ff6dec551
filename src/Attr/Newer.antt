-- ===== src/Attr/Newer.antt =====
-- The comparisons of replies are right across the wrap-around of the counters (mynfs/inode.c).
use mynfs.Base.{
  sub64, is_pos64, ℕ, ◌+◌, ◌%◌, ◌^◌, ◌≤◌, ◌<◌, ◌==◌, ltb, ◌≡◌, refl, ap, ◌∙◌, some, if◌then◌else◌,
  Bool, true, false, arith,
}
use mynfs.Attr.Gaps.{Fattr}
use mynfs.Attr.Compare.{
  Cmp, newer, same, older, ChangeAttrType, undefined, time_metadata, counted, Inode, cmp_by_type,
  inode_attrs_cmp, attrs_cmp_strict_monotonic, attrs_cmp_generic, attrs_cmp_monotonic,
}

-- The difference of two numbers that are less than 2 ^ 63 apart.
sub64_pos :
    (a b : ℕ)
    → a < b + 2 ^ 63
    → b < a + 2 ^ 63
    → is_pos64 (sub64 (a % 2 ^ 64) (b % 2 ^ 64)) ≡ ltb b a
sub64_pos a b p q = ground arith

sub64_zero :
    (a b : ℕ) → a < b + 2 ^ 63 → b < a + 2 ^ 63 → (sub64 (a % 2 ^ 64) (b % 2 ^ 64) == 0) ≡ (a == b)
sub64_zero a b p q = ground arith

-- The order of two numbers.
abbrev pub order : ℕ → ℕ → Cmp
order a b = if ltb b a then newer else if a == b then same else older

abbrev pub strict_order : ℕ → ℕ → Cmp
strict_order a b = if ltb b a then newer else older

abbrev pub order_by_type : ChangeAttrType → ℕ → ℕ → Cmp
order_by_type undefined change iversion = same
order_by_type time_metadata change iversion = order change iversion
order_by_type counted change iversion = strict_order change iversion

generic_order :
    (gen attr counter : ℕ)
    → attr ≤ counter
    → counter < gen + 2 ^ 63
    → gen ≤ counter
    → counter < attr + 2 ^ 63
    → attrs_cmp_generic (gen % 2 ^ 64) (attr % 2 ^ 64) (counter % 2 ^ 64) ≡ ltb attr gen
unfolding attrs_cmp_generic
generic_order gen attr counter p q r t =
    rw
      (
        sub64_pos gen attr (omega arith) (omega arith),
        sub64_pos attr counter (omega arith) (omega arith),
      )
      (ground arith)

monotonic_order :
    (a b : ℕ)
    → a < b + 2 ^ 63
    → b < a + 2 ^ 63
    → attrs_cmp_monotonic (a % 2 ^ 64) (b % 2 ^ 64) ≡ order a b
unfolding attrs_cmp_monotonic
monotonic_order a b p q = rw (sub64_pos a b p q, sub64_zero a b p q) refl

strict_monotonic_order :
    (a b : ℕ)
    → a < b + 2 ^ 63
    → b < a + 2 ^ 63
    → attrs_cmp_strict_monotonic (a % 2 ^ 64) (b % 2 ^ 64) ≡ strict_order a b
unfolding attrs_cmp_strict_monotonic
strict_monotonic_order a b p q = ap to_strict (monotonic_order a b p q) ∙ strict (ltb b a) (a == b)
  where
    to_strict : Cmp → Cmp
    to_strict c = elim c [ newer ↦ newer | _ ↦ older ]

    strict :
        (c d : Bool)
        → to_strict (if c then newer else if d then same else older) ≡ (if c then newer else older)
    strict true d = refl
    strict false true = refl
    strict false false = refl

cmp_by_type_order :
    (t : ChangeAttrType) (a b : ℕ)
    → a < b + 2 ^ 63
    → b < a + 2 ^ 63
    → cmp_by_type t (some (a % 2 ^ 64)) (b % 2 ^ 64) ≡ order_by_type t a b
cmp_by_type_order undefined a b p q = refl
cmp_by_type_order time_metadata a b p q = monotonic_order a b p q
cmp_by_type_order counted a b p q = strict_monotonic_order a b p q

-- The counters wrap around at 2 ^ 64. Let the generations of the reply and of the inode lie less than
-- 2 ^ 63 behind the counter, and the change attributes less than 2 ^ 63 apart. Then a reply is taken
-- to be newer if its call was made after the last update, and else as its change attribute compares
-- with the one of the inode, which tells nothing where the server leaves it undefined.
pub inode_attrs_cmp_order :
    (gen attr counter change iversion : ℕ) (fattr : Fattr) (inode : Inode)
    → inode.attr_gencount ≡ attr % 2 ^ 64
    → inode.generation_counter ≡ counter % 2 ^ 64
    → inode.iversion ≡ iversion % 2 ^ 64
    → fattr.change_attr ≡ some (change % 2 ^ 64)
    → attr ≤ counter
    → counter < gen + 2 ^ 63
    → gen ≤ counter
    → counter < attr + 2 ^ 63
    → change < iversion + 2 ^ 63
    → iversion < change + 2 ^ 63
    → inode_attrs_cmp (gen % 2 ^ 64) fattr inode
      ≡ (if ltb attr gen then newer else order_by_type inode.change_attr_type change iversion)
unfolding inode_attrs_cmp
inode_attrs_cmp_order gen attr counter change iversion fattr inode a c i f p q r t u v =
    let t' = inode.change_attr_type in
    ap
      (λ n.
        if attrs_cmp_generic (gen % 2 ^ 64) n inode.generation_counter
        then newer
        else cmp_by_type t' fattr.change_attr inode.iversion)
      a
    ∙ ap
        (λ n.
          if attrs_cmp_generic (gen % 2 ^ 64) (attr % 2 ^ 64) n
          then newer
          else cmp_by_type t' fattr.change_attr inode.iversion)
        c
    ∙ ap (λ b. if b then newer else cmp_by_type t' fattr.change_attr inode.iversion)
        (generic_order gen attr counter p q r t)
    ∙ ap (λ n. if ltb attr gen then newer else cmp_by_type t' fattr.change_attr n) i
    ∙ ap (λ o. if ltb attr gen then newer else cmp_by_type t' o (iversion % 2 ^ 64)) f
    ∙ ap (λ x. if ltb attr gen then newer else x) (cmp_by_type_order t' change iversion u v)

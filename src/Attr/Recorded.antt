-- ===== src/Attr/Recorded.antt =====
-- Replies seen in any order: what the gaps say about them (mynfs/inode.c).
use mynfs.Base.{
  ℕ, ◌+◌, ◌-◌, ◌≤◌, ◌<◌, ◌≡◌, refl, ap, ◌∙◌, ◌⊎◌, if◌then◌else◌, Bool, true, false, inl, inr,
  Option, none, some, List, [], ◌∷◌, length, arith,
}
use mynfs.Attr.Gaps.{Gap, Ooo, Fattr, merge_into, ooo_merge, ooo_record, record_change}
use mynfs.Attr.Counting.{starts, stops}
use mynfs.Attr.Loop.{rounds}
use mynfs.Attr.Exact.{Exact, IsKnown, Gives, table_of, change_of, gap_of, merged-IsKnown}

-- No gap was seen yet.
abbrev pub fresh : Ooo
fresh = record { defer = false; gaps = none }

abbrev pub then_records : (Ooo → Option Ooo) → Option Ooo → Option Ooo
then_records rest none = none
then_records rest (some o) = rest o

-- `nfs_ooo_record` for one reply after the other, each with the answer of `kmalloc`.
unfoldable pub ooo_records : ℕ → ℕ → List (Bool × Fattr) → Ooo → Option Ooo
ooo_records size fuel [] o = some o
ooo_records size fuel ((allocated, fattr) ∷ rs) o =
    then_records (ooo_records size fuel rs) (ooo_record size fuel allocated o fattr)

-- The changes that they show, and some others.
abbrev pub changes : List (Bool × Fattr) → List Gap → List Gap
changes [] ranges = ranges
changes ((allocated, fattr) ∷ rs) ranges =
    changes rs (change_of fattr.change_attr fattr.pre_change_attr ranges)

module _ (size fuel : ℕ) (f : rounds size + size < fuel) where
  merge_into-IsKnown :
      (ranges : List Gap) (allocated : Bool) (gaps : Option (List Gap)) (start stop : ℕ)
      → Exact ranges (table_of gaps)
      → length (table_of gaps) ≤ size
      → Gives size fuel f
          (gap_of start stop ∷ ranges)
          (merge_into size fuel allocated gaps start stop)
  merge_into-IsKnown ranges true none start stop x l =
      merged-IsKnown size fuel f ranges [] start stop x l
  merge_into-IsKnown ranges false none start stop x l =
      (record { defer = true; gaps = none }, refl, inl refl)
  merge_into-IsKnown ranges true (some gaps) start stop x l =
      merged-IsKnown size fuel f ranges gaps start stop x l
  merge_into-IsKnown ranges false (some gaps) start stop x l =
      merged-IsKnown size fuel f ranges gaps start stop x l

  ooo_merge-IsKnown :
      (ranges : List Gap) (allocated : Bool) (o : Ooo) (start stop : ℕ)
      → IsKnown size fuel f ranges o
      → Gives size fuel f (gap_of start stop ∷ ranges) (ooo_merge size fuel allocated o start stop)
  unfolding ooo_merge
  ooo_merge-IsKnown ranges allocated o start stop k = by_defer o.defer k
    where
      by_defer :
          (b : Bool)
          → (b ≡ true) ⊎ (Exact ranges (table_of o.gaps) × (length (table_of o.gaps) ≤ size))
          → Gives size fuel f (gap_of start stop ∷ ranges) (
              if b
              then some (record o { defer = b })
              else merge_into size fuel allocated o.gaps start stop)
      by_defer true k = (record o { defer = true }, refl, inl refl)
      by_defer false (inl e) = cc
      by_defer false (inr (x, l)) = merge_into-IsKnown ranges allocated o.gaps start stop x l

  record_change-IsKnown :
      (ranges : List Gap) (allocated : Bool) (o : Ooo) (change pre_change : Option ℕ)
      → IsKnown size fuel f ranges o
      → Gives size fuel f
          (change_of change pre_change ranges)
          (record_change size fuel allocated o change pre_change)
  record_change-IsKnown ranges allocated o none pre_change k = (o, refl, k)
  record_change-IsKnown ranges allocated o (some change) none k = (o, refl, k)
  record_change-IsKnown ranges allocated o (some change) (some pre_change) k =
      ooo_merge-IsKnown ranges allocated o change pre_change k

  ooo_records-IsKnown :
      (rs : List (Bool × Fattr)) (ranges : List Gap) (o : Ooo)
      → IsKnown size fuel f ranges o
      → Gives size fuel f (changes rs ranges) (ooo_records size fuel rs o)
  unfolding ooo_records ooo_record
  ooo_records-IsKnown [] ranges o k = (o, refl, k)
  ooo_records-IsKnown ((allocated, fattr) ∷ rs) ranges o k =
      let (o', q, k') =
        record_change-IsKnown ranges allocated o fattr.change_attr fattr.pre_change_attr k in
      let (o'', q', k'') =
        ooo_records-IsKnown rs (change_of fattr.change_attr fattr.pre_change_attr ranges) o' k' in
      (o'', ap (then_records (ooo_records size fuel rs)) q ∙ q', k'')

  fresh-IsKnown : IsKnown size fuel f [] fresh
  fresh-IsKnown = inr (record { net = λ v. omega arith; reduced = λ v. refl }, omega arith)

  -- Replies that show changes, in any order. With fuel for one round more than a table of full size
  -- can need, the loops end. Unless it is noted that gaps were lost,
  -- for want of memory or of room in the table, each value of the change attribute begins as many gaps
  -- as the number of changes that led to it exceeds that of the changes that started at it, and ends
  -- as many as the latter exceeds the former.
  pub ooo_records_exact :
      (rs : List (Bool × Fattr))
      → (o : Ooo) × (ooo_records size fuel rs fresh ≡ some o)
        × ((o.defer ≡ true)
            ⊎ ((v : ℕ)
                → (starts v (table_of o.gaps) ≡ starts v (changes rs []) - stops v (changes rs []))
                  × (stops v (table_of o.gaps)
                      ≡ stops v (changes rs []) - starts v (changes rs []))))
  ooo_records_exact rs =
      let (o, q, k) = ooo_records-IsKnown rs [] fresh fresh-IsKnown in
      (
        o,
        q,
        elim k [
          | inl d ↦ inl d
          | inr (x, l) ↦
              inr
                (λ v. (ground (arith, x.net v, x.reduced v), ground (arith, x.net v, x.reduced v)))
        ],
      )

  -- Once replies have shown a closed round of changes, every value left as often as reached, in
  -- whatever order, no gap remains, unless it is noted that gaps were lost.
  ooo_records_settle :
      (rs : List (Bool × Fattr))
      → ((v : ℕ) → starts v (changes rs []) ≡ stops v (changes rs []))
      → (o : Ooo) × (ooo_records size fuel rs fresh ≡ some o)
        × ((o.defer ≡ true) ⊎ (table_of o.gaps ≡ []))
  ooo_records_settle rs e =
      let (o, q, k) = ooo_records_exact rs in
      (
        o,
        q,
        elim k [
          | inl d ↦ inl d
          | inr x ↦ inr (no_starts (table_of o.gaps) (λ v. omega (arith, (x v).0, e v)))
        ],
      )
    where
      no_starts : (gaps : List Gap) → ((v : ℕ) → starts v gaps ≡ 0) → gaps ≡ []
      no_starts [] h = refl
      no_starts (g ∷ gs) h = absurd (ground (arith, h g.start))

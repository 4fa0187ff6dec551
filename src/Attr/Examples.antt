-- ===== src/Attr/Examples.antt =====
-- The theorems about attributes applied to replies out of order and to counters that wrap around.
use mynfs.Base.{
  ℕ, ◌+◌, ◌-◌, ◌%◌, ◌^◌, ◌≡◌, ◌⊎◌, refl, ltb, if◌then◌else◌, Bool, true, false, none, some, List,
  [], ◌∷◌, arith,
}
use mynfs.Attr.Gaps.{Ooo, Fattr}
use mynfs.Attr.Counting.{starts, stops}
use mynfs.Attr.Exact.{table_of}
use mynfs.Attr.Recorded.{fresh, ooo_records, changes, ooo_records_exact}
use mynfs.Attr.Compare.{newer, counted, Inode, inode_attrs_cmp}
use mynfs.Attr.Newer.{order_by_type, inode_attrs_cmp_order}

abbrev change : ℕ → ℕ → Bool × Fattr
change post pre = (true, record { change_attr = some post; pre_change_attr = some pre })

-- The change from 11 to 12 before the one from 10 to 11, and two that are not joined to these.
abbrev scattered : List (Bool × Fattr)
scattered = change 12 11 ∷ change 15 14 ∷ change 11 10 ∷ []

ooo_records_exact_example :
    (o : Ooo) × (ooo_records 16 200 scattered fresh ≡ some o)
    × ((o.defer ≡ true)
        ⊎ ((v : ℕ)
            → (starts v (table_of o.gaps)
                ≡ starts v (changes scattered []) - stops v (changes scattered []))
              × (stops v (table_of o.gaps)
                  ≡ stops v (changes scattered []) - starts v (changes scattered []))))
ooo_records_exact_example = ooo_records_exact 16 200 (omega arith) scattered

-- The last update was just before the wrap-around, and the call of the reply just after it.
abbrev inode : Inode
inode = record {
  attr_gencount = 2 ^ 64 - 3;
  generation_counter = 6;
  iversion = 2 ^ 64 - 1;
  change_attr_type = counted;
  invalid_change = false;
  invalid_others = false;
  ooo = fresh;
}

abbrev reply : Fattr
reply = record { change_attr = some 0; pre_change_attr = none }

inode_attrs_cmp_order_example :
    inode_attrs_cmp ((2 ^ 64 + 5) % 2 ^ 64) reply inode
    ≡ (if ltb (2 ^ 64 - 3) (2 ^ 64 + 5) then newer else order_by_type counted (2 ^ 64) (2 ^ 64 - 1))
inode_attrs_cmp_order_example =
    inode_attrs_cmp_order (2 ^ 64 + 5) (2 ^ 64 - 3) (2 ^ 64 + 6) (2 ^ 64) (2 ^ 64 - 1) reply inode
      refl refl refl refl (omega arith) (omega arith) (omega arith) (omega arith) (omega arith)
      (omega arith)

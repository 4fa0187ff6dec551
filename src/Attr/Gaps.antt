-- ===== src/Attr/Gaps.antt =====
-- Changes of a file that were seen out of order: `nfs_ooo_merge` and `nfs_ooo_record` of mynfs/inode.c.
-- A gap goes from one value of the change attribute to another.
use mynfs.Base.{
  ℕ, zero, suc, ◌==◌, leb, if◌then◌else◌, Bool, true, false, Option, none, some, List, [], ◌∷◌,
  ◌++◌, length, get_elem?,
}

-- An element of `gap`.
pub record Gap : Type 0 where
  pub start : ℕ
  pub stop : ℕ  -- end

-- NFS_INO_DATA_INVAL_DEFER of `cache_validity`, and `ooo`, with the first `cnt` elements of its table.
pub record Ooo : Type 0 where
  pub defer : Bool
  pub gaps : Option (List Gap)

-- The last gap put before the others.
abbrev pub put_first : Gap → List Gap → List Gap
put_first g [] = g ∷ []
put_first g (l ∷ rest) = l ∷ g ∷ rest

abbrev pub move_last : List Gap → List Gap
move_last [] = []
move_last (g ∷ gs) = put_first g (move_last gs)

-- `cnt -= 1; gap[i] = gap[cnt]`
abbrev pub take_out : List Gap → ℕ → List Gap
take_out [] i = []
take_out (g ∷ gs) zero = move_last gs
take_out (g ∷ gs) (suc i) = g ∷ take_out gs i

-- `for (i = 0; i < cnt; i++)`: after a merge the search starts anew. `none` if the fuel runs out.
unfoldable pub merge_loop : ℕ → List Gap → ℕ → ℕ → ℕ → Option (List Gap × ℕ × ℕ)
merge_loop zero gaps i start stop = none
merge_loop (suc fuel) gaps i start stop = elim (get_elem? gaps i) [
  | none ↦ some (gaps, start, stop)
  | some g ↦ elim (stop == g.start) [
    | true ↦ merge_loop fuel (take_out gaps i) 0 start g.stop
    | false ↦ elim (start == g.stop) [
      | true ↦ merge_loop fuel (take_out gaps i) 0 g.start stop
      | false ↦ merge_loop fuel gaps (suc i) start stop
    ]
  ]
]

-- What is left of the range is put in the table, which has room for `size` gaps.
abbrev pub insert_gap : ℕ → Option (List Gap × ℕ × ℕ) → Option Ooo
insert_gap size none = none
insert_gap size (some (gaps, start, stop)) =
    if start == stop
    then some (record { defer = false; gaps = some gaps })
    else if leb size (length gaps)
    then some (record { defer = true; gaps = none })
    else some
        (record { defer = false; gaps = some (gaps ++ record { start = start; stop = stop } ∷ []) })

abbrev pub merge_into : ℕ → ℕ → Bool → Option (List Gap) → ℕ → ℕ → Option Ooo
merge_into size fuel allocated (some gaps) start stop =
    insert_gap size (merge_loop fuel gaps 0 start stop)
merge_into size fuel true none start stop = insert_gap size (merge_loop fuel [] 0 start stop)
merge_into size fuel false none start stop = some (record { defer = true; gaps = none })

-- `nfs_ooo_merge`; `allocated` says whether `kmalloc` finds memory for the table.
unfoldable pub ooo_merge : ℕ → ℕ → Bool → Ooo → ℕ → ℕ → Option Ooo
unfolding merge_loop
ooo_merge size fuel allocated o start stop =
    if o.defer then some o else merge_into size fuel allocated o.gaps start stop

-- Of `struct nfs_fattr`, the change attribute and the one before, if they are valid.
pub record Fattr : Type 0 where
  pub change_attr : Option ℕ
  pub pre_change_attr : Option ℕ

abbrev pub record_change : ℕ → ℕ → Bool → Ooo → Option ℕ → Option ℕ → Option Ooo
record_change size fuel allocated o (some change) (some pre_change) =
    ooo_merge size fuel allocated o change pre_change
record_change size fuel allocated o none pre_change = some o
record_change size fuel allocated o (some change) none = some o

-- `nfs_ooo_record`
unfoldable pub ooo_record : ℕ → ℕ → Bool → Ooo → Fattr → Option Ooo
unfolding ooo_merge
ooo_record size fuel allocated o fattr =
    record_change size fuel allocated o fattr.change_attr fattr.pre_change_attr

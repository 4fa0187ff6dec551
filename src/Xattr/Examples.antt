-- ===== src/Xattr/Examples.antt =====
-- The theorems about the cache of extended attributes applied to a small cache.
use mynfs.Base.{ℕ, ◌≡◌, refl, true, false, some, none, List, [], ◌∷◌, length, arith}
use mynfs.Xattr.Entry.{Name, Entry, allocated}
use mynfs.Xattr.Table.{Cache, Logged, no_list, hash_init}
use mynfs.Xattr.Inode.{World}
use mynfs.Xattr.Linked.{contents, IsLinked, hash_init-IsTable}
use mynfs.Xattr.Refinement.{
  Op, add_op, remove_op, lookup_op, run_all, change_all, run_all-change_all,
}
use mynfs.Xattr.Balance.{add_act, act, act-IsBalanced}
use mynfs.Xattr.Counting.{IsBalanced}

-- A hash that looks at the first byte only.
abbrev hash : Name → ℕ → ℕ → ℕ
hash [] n seed = seed
hash (b ∷ bs) n seed = b

abbrev color : Name
color = 99 ∷ 111 ∷ []

abbrev count : Name
count = 99 ∷ 110 ∷ []

abbrev entry : ℕ → Name → List ℕ → Entry
entry addr name bytes = record {
  addr = addr;
  xattr_name = some name;
  xattr_value = bytes;
  xattr_size = length bytes;
  extval = false;
  bucket = none;
}

-- A cache that is linked to the inode.
abbrev new_object : Cache
new_object = record { buckets = hash_init; nent = 0; listxattr = no_list; has_inode = true }

abbrev world : World
world = record { caches = new_object ∷ []; xattr_cache = some 0; invalid_xattr = false; log = [] }

abbrev calls : List Op
calls =
    add_op new_object color (some (entry 1 color (7 ∷ 8 ∷ [])))
    ∷ add_op new_object count (some (entry 2 count (5 ∷ [])))
    ∷ lookup_op color 0
    ∷ remove_op count
    ∷ []

world-IsLinked : IsLinked world
world-IsLinked = record { object = new_object; at = refl; table = hash_init-IsTable }

run_all-change_all_example :
    IsLinked (run_all hash calls world)
    × ((q : Name)
        → contents hash (run_all hash calls world) q ≡ change_all calls q (contents hash world q))
run_all-change_all_example =
    run_all-change_all hash calls world ((refl, refl), ((refl, refl), (tt, (tt, tt))))
      world-IsLinked

-- The entry is allocated, and nothing else is there.
abbrev started : Logged
started = record { cache = new_object; log = allocated 1 ∷ [] }

started-IsBalanced : IsBalanced (some (entry 1 color [])) started
unfolding hash_init
started-IsBalanced a = omega arith

act-IsBalanced_example : IsBalanced none (act hash (add_act color (entry 1 color [])) started)
unfolding hash_init
act-IsBalanced_example =
    act-IsBalanced hash (add_act color (entry 1 color [])) started refl started-IsBalanced

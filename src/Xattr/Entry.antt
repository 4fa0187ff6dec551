-- ===== src/Xattr/Entry.antt =====
-- Entries of the cache of extended attributes: mynfs/nfs42xattr.c from `nfs4_xattr_entry_lru_add` to
-- `nfs4_xattr_alloc_entry`. A name is its bytes without the terminating NUL. What is asked of the
-- lists of least recently used objects and of the reference counts is recorded, the newest first.
use mynfs.Base.{
  ℕ, ◌+◌, leb, ◌==◌, if◌then◌else◌, Bool, true, false, not, ◌&&◌, Option, none, some, List, [], ◌∷◌,
  length, take,
}

abbrev pub Name : Type 0
Name = List ℕ

-- `strlen`, and `!strcmp`
abbrev pub strlen : Name → ℕ
strlen name = length name

abbrev pub same_name : Name → Name → Bool
same_name [] [] = true
same_name [] (y ∷ ys) = false
same_name (x ∷ xs) [] = false
same_name (x ∷ xs) (y ∷ ys) = x == y && same_name xs ys

-- `struct nfs4_xattr_entry`, at an address.
pub record Entry : Type 0 where
  pub addr : ℕ
  pub xattr_name : Option Name
  pub xattr_value : List ℕ
  pub xattr_size : ℕ
  pub extval : Bool  -- NFS4_XATTR_ENTRY_EXTVAL of flags
  pub bucket : Option ℕ

-- An entry's reference count starts at 1 when it is allocated; a cache's at 1 too.
pub data Event : Type 0 where
  allocated kref_get kref_put : ℕ → Event
  lru_add lru_del : Bool → ℕ → Event  -- of the large entries, or of the others
  cache_get cache_put : ℕ → Event
  cache_lru_add cache_lru_del : ℕ → Event

unfoldable pub entry_lru_add : Entry → List Event → List Event
entry_lru_add e log = lru_add e.extval e.addr ∷ log

unfoldable pub entry_lru_del : Entry → List Event → List Event
entry_lru_del e log = lru_del e.extval e.addr ∷ log

-- The memory for the name, with the NUL.
abbrev pub name_room : Option Name → ℕ
name_room none = 0
name_room (some name) = strlen name + 1

-- `bytes` is what `value` or `pages` holds; `kmalloc` gives an address or fails, and `kvmalloc` is
-- whether the memory for a large value can be had.
module _ (sizeof_entry page_size : ℕ) where
  abbrev pub is_large : Option Name → ℕ → Bool
  is_large name len = not (leb (sizeof_entry + name_room name + len) page_size)

  unfoldable pub alloc_entry :
      Option ℕ → Bool → Option Name → List ℕ → ℕ → List Event → Option Entry × List Event
  alloc_entry none kvmalloc name bytes len log = (none, log)
  alloc_entry (some a) kvmalloc name bytes len log =
      if is_large name len && not kvmalloc then (none, log) else (
        some (record {
          addr = a;
          xattr_name = name;
          xattr_value = take len bytes;
          xattr_size = len;
          extval = is_large name len;
          bucket = none;
        }),
        allocated a ∷ log,
      )

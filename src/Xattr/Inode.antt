-- ===== src/Xattr/Inode.antt =====
-- The cache of an inode, and the entry points: mynfs/nfs42xattr.c from `nfs4_xattr_cache_unlink` to
-- `nfs4_xattr_cache_zap`. A pointer to a cache is its position in the list of all caches.
use mynfs.Base.{
  ℕ, ltb, ◌==◌, if◌then◌else◌, Bool, true, false, Option, none, some, List, [], ◌∷◌, ◌++◌, length,
  get_elem?, modify, take,
}
use mynfs.Xattr.Entry.{
  Name, Entry, Event, kref_put, cache_get, cache_put, cache_lru_add, cache_lru_del,
}
use mynfs.Xattr.Table.{
  ListCache, no_list, stale, listed, Cache, Logged, alloc_cache, set_listcache, discard_cache,
  hash_add, hash_remove, hash_find, put_old,
}

pub record World : Type 0 where
  pub caches : List Cache
  pub xattr_cache : Option ℕ
  pub invalid_xattr : Bool  -- NFS_INO_INVALID_XATTR of cache_validity
  pub log : List Event

-- What is done to the cache at a pointer.
abbrev pub put_cache : ℕ → World → Logged → World
put_cache c w s = record w { caches = modify w.caches c (λ x. s.cache); log = s.log }

abbrev pub logged : World → Cache → Logged
logged w x = record { cache = x; log = w.log }

abbrev pub on_object : Option Cache → ℕ → (Logged → Logged) → World → World
on_object none c f w = w
on_object (some x) c f w = put_cache c w (f (logged w x))

abbrev pub on_cache : ℕ → (Logged → Logged) → World → World
on_cache c f w = on_object (get_elem? w.caches c) c f w

abbrev pub set_has_inode : Bool → Logged → Logged
set_has_inode b s = record s { cache = record s.cache { has_inode = b } }

abbrev pub note : Event → World → World
note e w = record w { log = e ∷ w.log }

abbrev pub unlink_old : Option ℕ → World → World
unlink_old none w = w
unlink_old (some c) w = on_cache c (set_has_inode false) (note (cache_lru_del c) w)

-- With the cache that the inode had.
unfoldable pub cache_unlink : World → World × Option ℕ
cache_unlink w = (
  record (unlink_old w.xattr_cache w) { xattr_cache = none; invalid_xattr = false },
  w.xattr_cache,
)

-- `nfs4_xattr_discard_cache`
unfoldable pub discard : Option ℕ → World → World
unfolding discard_cache
discard none w = w
discard (some c) w = note (cache_put c) (on_cache c discard_cache w)

abbrev pub get_ref : Option ℕ → World → World
get_ref none w = w
get_ref (some c) w = note (cache_get c) w

-- The cache that was allocated is the last of all.
abbrev pub link_or_drop : ℕ → World → World × Option ℕ
link_or_drop c w = if w.invalid_xattr then (note (cache_put c) w, none) else elim w.xattr_cache [
  | some newer ↦ (note (cache_put c) (note (cache_get newer) w), some newer)
  | none ↦ (
    note (cache_lru_add c)
        (on_cache c (set_has_inode true) (record (note (cache_get c) w) { xattr_cache = some c })),
    some c,
  )
]

-- `slab` is what `kmem_cache_alloc` gives, and `meanwhile` what others do while the lock is dropped.
module _ (slab : Option Cache) (meanwhile : World → World) where
  unfoldable pub new_cache : World → World × Option ℕ
  new_cache w = elim slab [
    | none ↦ (w, none)
    | some object ↦
        link_or_drop (length w.caches)
          (meanwhile (record w { caches = w.caches ++ alloc_cache object ∷ [] }))
  ]

  -- The second half, where the first found `cache` and left `w`.
  abbrev pub add_cache : Bool → World → Option ℕ → World × Option ℕ
  add_cache add w (some c) = (w, some c)
  add_cache true w none = new_cache w
  add_cache false w none = (w, none)

  unfoldable pub get_cache : Bool → World → World × Option ℕ
  unfolding cache_unlink discard new_cache
  get_cache add w =
      let (unlinked, old) = cache_unlink w in
      let (w', c) = add_cache add unlinked none in
      if w.invalid_xattr
      then (discard old w', c)
      else add_cache add (get_ref w.xattr_cache w) w.xattr_cache

-- The return value: an error, or the size, with what was copied into the buffer.
pub data Answer : Type 0 where
  enoent erange : Answer
  sized : ℕ → Option (List ℕ) → Answer

unfoldable pub answer_entry : Entry → ℕ → Answer
answer_entry e buflen =
    if buflen == 0
    then sized e.xattr_size none
    else if ltb buflen e.xattr_size
    then erange
    else sized e.xattr_size (some (take e.xattr_size e.xattr_value))

abbrev pub answer_found : Option Entry → ℕ → Answer
answer_found none buflen = enoent
answer_found (some e) buflen = answer_entry e buflen

abbrev pub answer_list : ListCache → ℕ → Answer
answer_list no_list buflen = enoent
answer_list stale buflen = enoent
answer_list (listed e) buflen = answer_entry e buflen

abbrev pub no_change : World → World
no_change w = w

-- Without `add`, no cache is allocated.
abbrev pub found_cache : World → World × Option ℕ
found_cache w = get_cache none no_change false w

abbrev pub list_in : ℕ → ℕ → World → Option Cache → World × Answer
list_in buflen c w none = (w, enoent)
list_in buflen c w (some x) = (note (cache_put c) w, answer_list x.listxattr buflen)

abbrev pub list_found : ℕ → World × Option ℕ → World × Answer
list_found buflen (w, none) = (w, enoent)
list_found buflen (w, some c) = list_in buflen c w (get_elem? w.caches c)

unfoldable pub cache_list : ℕ → World → World × Answer
unfolding get_cache answer_entry
cache_list buflen w = list_found buflen (found_cache w)

-- What an entry point does to the cache it found, up to the reference that it drops.
abbrev pub on_found : (Logged → Logged) → World × Option ℕ → World
on_found f (w, none) = w
on_found f (w, some c) = note (cache_put c) (on_cache c f w)

-- The part of `nfs4_xattr_cache_set_list` on the cache: `entry` is the result of `alloc_entry`.
unfoldable pub list_added : Option Entry → Logged → Logged
unfolding set_listcache
list_added none s = s
list_added (some e) s =
    let (s', ok) = set_listcache (listed (record e { bucket = some 0 })) s in
    if ok then s' else record s' { log = kref_put e.addr ∷ s'.log }

unfoldable pub cache_set_list : Option Cache → (World → World) → Option Entry → World → World
unfolding get_cache list_added
cache_set_list slab meanwhile entry w =
    on_found (list_added entry) (get_cache slab meanwhile true w)

unfoldable pub cache_zap : World → World
unfolding cache_unlink discard
cache_zap w = let (w', old) = cache_unlink w in discard old w'

module _ (jhash : Name → ℕ → ℕ → ℕ) where
  abbrev pub lookup_in : Name → ℕ → ℕ → World → Option Cache → World × Answer
  lookup_in name buflen c w none = (w, enoent)
  lookup_in name buflen c w (some x) =
      let (entry, s) = hash_find jhash name (logged w x) in
      (note (cache_put c) (record w { log = put_old entry s.log }), answer_found entry buflen)

  abbrev pub lookup_found : Name → ℕ → World × Option ℕ → World × Answer
  lookup_found name buflen (w, none) = (w, enoent)
  lookup_found name buflen (w, some c) = lookup_in name buflen c w (get_elem? w.caches c)

  -- `nfs4_xattr_cache_get`
  unfoldable pub cache_lookup : Name → ℕ → World → World × Answer
  unfolding get_cache hash_find answer_entry
  cache_lookup name buflen w = lookup_found name buflen (found_cache w)

  -- The part of `nfs4_xattr_cache_add` on the cache: `entry` is the result of `alloc_entry`.
  unfoldable pub add_entry : Name → Option Entry → Logged → Logged
  unfolding set_listcache hash_add
  add_entry name none s = s
  add_entry name (some e) s =
      let (s', ok) = hash_add jhash name e (set_listcache no_list s).0 in
      if ok then s' else record s' { log = kref_put e.addr ∷ s'.log }

  unfoldable pub cache_add : Option Cache → (World → World) → Name → Option Entry → World → World
  unfolding get_cache add_entry
  cache_add slab meanwhile name entry w =
      on_found (add_entry name entry) (get_cache slab meanwhile true w)

  unfoldable pub remove_entry : Name → Logged → Logged
  unfolding set_listcache hash_remove
  remove_entry name s = hash_remove jhash name (set_listcache no_list s).0

  unfoldable pub cache_remove : Name → World → World
  unfolding get_cache remove_entry
  cache_remove name w = on_found (remove_entry name) (found_cache w)

-- ===== src/Xattr/Balance.antt =====
-- The references to the entries of one cache.
use mynfs.Base.{
  ℕ, ◌+◌, ◌<◌, ◌≡◌, refl, if◌then◌else◌, Bool, true, false, Option, none, some, List, ◌∷◌, length,
  get_elem?, Bool-cases, ◌⊎◌, inl, inr, arith,
}
use mynfs.Xattr.Entry.{Name, Entry, entry_lru_add}
use mynfs.Xattr.Table.{
  ListCache, no_list, stale, listed, Logged, hash_size, chain_of, get_entry, hlist_del,
  set_listcache, is_stale, list_lru_add, forget, discard_cache, hash_bucket, hash_add, hash_remove,
  is_draining,
}
use mynfs.Xattr.Inode.{add_entry, remove_entry, list_added}
use mynfs.Xattr.Buckets.{hash_bucket_lt}
use mynfs.Xattr.Shrink.{Place, entry_scan}
use mynfs.Xattr.Shrunk.{entry_scan-IsBalanced}
use mynfs.Xattr.Counting.{
  in_list, gained, dropped, IsBalanced, in_chain-hlist_del, in_buckets-modify, lru_dropped,
  put_old_lem, list_drop_lem, list_lru_add_lem, drain_lem,
}

-- The list is replaced, or the cache is stale and stays.
SetList : ListCache → Logged → Logged × Bool → Type 0
SetList new s (r, ok) =
    (r.cache.buckets ≡ s.cache.buckets)
    × (((ok ≡ false) × (r ≡ s))
        ⊎ ((ok ≡ true)
            × (r.cache.listxattr ≡ new)
            × ((a : ℕ)
                → (dropped a r.log ≡ in_list a s.cache.listxattr + dropped a s.log)
                  × (gained a r.log ≡ gained a s.log))))

set_listcache-SetList : (new : ListCache) (s : Logged) → SetList new s (set_listcache new s)
unfolding set_listcache SetList
set_listcache-SetList new s = elim (Bool-cases (is_stale s.cache.listxattr)) [
  | inl e ↦ rw e (refl, inl (refl, refl))
  | inr e ↦ rw e (
    refl,
    inr (
      refl,
      refl,
      λ a.
          let (p, q) = list_drop_lem a s.cache.listxattr (list_lru_add new s.log) in
          let (u, v) = list_lru_add_lem a new s.log in (omega arith, omega arith),
    ),
  )
]

-- Without a new list, what the caller has stays.
emptied-IsBalanced :
    (new : ListCache) (mine : Option Entry) (s : Logged)
    → ((a : ℕ) → in_list a new ≡ 0)
    → IsBalanced mine s
    → IsBalanced mine (set_listcache new s).0
unfolding SetList
emptied-IsBalanced new mine s z h a =
    let (b, c) = set_listcache-SetList new s in
    elim c [
      | inl (ok, same) ↦ rw same (h a)
      | inr (ok, l, d) ↦
          let (p, q) = d a in let u = h a in let none_there = z a in rw (b, l) (omega arith)
    ]

no_list-IsBalanced :
    (mine : Option Entry) (s : Logged)
    → IsBalanced mine s
    → IsBalanced mine (set_listcache no_list s).0
no_list-IsBalanced mine s h = emptied-IsBalanced no_list mine s (λ a. refl) h

list_added-IsBalanced :
    (e : Entry) (s : Logged) → IsBalanced (some e) s → IsBalanced none (list_added (some e) s)
unfolding SetList list_added
list_added-IsBalanced e s h a =
    let e' : Entry = record e { bucket = some 0 } in
    let (b, c) = set_listcache-SetList (listed e') s in
    let u = h a in
    elim c [
      | inl (ok, same) ↦ rw (ok, same) (omega arith)
      | inr (ok, l, d) ↦ let (p, q) = d a in rw (ok, b, l) (omega arith)
    ]

module _ (jhash : Name → ℕ → ℕ → ℕ) where
  hash_remove-IsBalanced :
      (name : Name) (s : Logged)
      → length s.cache.buckets ≡ hash_size
      → IsBalanced none s
      → IsBalanced none (hash_remove jhash name s)
  unfolding hash_remove
  hash_remove-IsBalanced name s n h a =
      let i = hash_bucket jhash name in
      let es = chain_of (get_elem? s.cache.buckets i) in
      let lt : i < length s.cache.buckets = rw n (hash_bucket_lt jhash name) in
      let p = in_buckets-modify a s.cache.buckets i (hlist_del es name) lt in
      let q = in_chain-hlist_del a es name in
      let (u, v) = lru_dropped a (get_entry es name) s.log in let t = h a in omega arith

  hash_add-IsBalanced :
      (name : Name) (e : Entry) (s : Logged)
      → length s.cache.buckets ≡ hash_size
      → IsBalanced (some e) s
      → let r = hash_add jhash name e s in IsBalanced (if r.1 then none else some e) r.0
  unfolding hash_add entry_lru_add
  hash_add-IsBalanced name e s n h a =
      let i = hash_bucket jhash name in
      let es = chain_of (get_elem? s.cache.buckets i) in
      let e' : Entry = record e { bucket = some i } in
      let lt : i < length s.cache.buckets = rw n (hash_bucket_lt jhash name) in
      let p = in_buckets-modify a s.cache.buckets i (e' ∷ hlist_del es name) lt in
      let q = in_chain-hlist_del a es name in
      let (u, v) = lru_dropped a (get_entry es name) s.log in
      let (x, y) =
        put_old_lem a (get_entry es name) (entry_lru_add e' (forget (get_entry es name) s.log)) in
      let (z, w) = put_old_lem a (get_entry es name) (forget (get_entry es name) s.log) in
      let t = h a in
      elim (Bool-cases (is_draining (get_elem? s.cache.buckets i))) [
        | inl d ↦ rw d t
        | inr d ↦ rw d (omega arith)
      ]

  add_entry-IsBalanced :
      (name : Name) (e : Entry) (s : Logged)
      → length s.cache.buckets ≡ hash_size
      → IsBalanced (some e) s
      → IsBalanced none (add_entry jhash name (some e) s)
  unfolding add_entry SetList
  add_entry-IsBalanced name e s n h a =
      let s' = (set_listcache no_list s).0 in
      let r = hash_add jhash name e s' in
      let t =
        hash_add-IsBalanced name e s' (rw (set_listcache-SetList no_list s).0 n)
          (no_list-IsBalanced (some e) s h) a in
      elim (Bool-cases r.1) [
        | inl ok ↦ rw ok (rw ok at t)
        | inr ok ↦ let u = rw ok at t in rw ok (omega arith)
      ]

-- What is done to one cache, by a call that adds, removes or lists an entry, that discards the cache,
-- or that frees entries.
pub data Act : Type 0 where
  add_act : Name → Entry → Act
  remove_act : Name → Act
  list_act : Entry → Act
  discard_act : Act
  shrink_act : List (Bool × Place) → Act

abbrev pub act : (Name → ℕ → ℕ → ℕ) → Act → Logged → Logged
act jhash (add_act name e) s = add_entry jhash name (some e) s
act jhash (remove_act name) s = remove_entry jhash name s
act jhash (list_act e) s = list_added (some e) s
act jhash discard_act s = discard_cache s
act jhash (shrink_act places) s = entry_scan places s

-- The entry that the caller brings, with its one reference.
abbrev pub brought : Act → Option Entry
brought (add_act name e) = some e
brought (list_act e) = some e
brought _ = none

discard-IsBalanced : (s : Logged) → IsBalanced none s → IsBalanced none (discard_cache s)
unfolding discard_cache
discard-IsBalanced s h a =
    let s' = (set_listcache stale s).0 in
    let (p, q, r) = drain_lem a s'.cache.buckets s'.log in
    let u = emptied-IsBalanced stale none s (λ b. refl) h a in omega arith

-- Where each entry has one reference for each place of the cache where it stands, and the caller's
-- where the caller brings it, then afterwards each has one reference for each place where it
-- stands, and no other: what left the cache, or could not be taken in because the cache is being
-- drained, was dropped just once. This includes the freeing of entries under memory pressure,
-- whichever entries it comes to and whichever locks it gets.
pub act-IsBalanced :
    (jhash : Name → ℕ → ℕ → ℕ) (what : Act) (s : Logged)
    → length s.cache.buckets ≡ hash_size
    → IsBalanced (brought what) s
    → IsBalanced none (act jhash what s)
unfolding remove_entry SetList
act-IsBalanced jhash (add_act name e) s n h = add_entry-IsBalanced jhash name e s n h
act-IsBalanced jhash (remove_act name) s n h =
    hash_remove-IsBalanced jhash name (set_listcache no_list s).0
      (rw (set_listcache-SetList no_list s).0 n) (no_list-IsBalanced none s h)
act-IsBalanced jhash (list_act e) s n h = list_added-IsBalanced e s h
act-IsBalanced jhash discard_act s n h = discard-IsBalanced s h
act-IsBalanced jhash (shrink_act places) s n h = entry_scan-IsBalanced places s h

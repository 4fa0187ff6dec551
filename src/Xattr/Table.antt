-- ===== src/Xattr/Table.antt =====
-- The hash table of one cache, and its list of names: mynfs/nfs42xattr.c from `nfs4_xattr_hash_init`
-- to `nfs4_xattr_hash_find`. The array of buckets is a list, and each function stands for what it
-- does under the lock of its bucket or of the list.
use mynfs.Base.{
  ℕ, ◌+◌, ◌-◌, ◌%◌, ◌^◌, if◌then◌else◌, Bool, true, false, Option, none, some, List, [], ◌∷◌,
  get_elem?, modify, replicate,
}
use mynfs.Xattr.Entry.{
  Name, strlen, same_name, Entry, Event, kref_get, kref_put, entry_lru_add, entry_lru_del,
}

-- NFS4_XATTR_HASH_SIZE
abbrev pub hash_size : ℕ
hash_size = 64

pub record Bucket : Type 0 where
  pub hlist : List Entry
  pub draining : Bool

-- `listxattr`: NULL, ERR_PTR(-ESTALE), or an entry.
pub data ListCache : Type 0 where
  no_list stale : ListCache
  listed : Entry → ListCache

pub record Cache : Type 0 where
  pub buckets : List Bucket
  pub nent : ℕ
  pub listxattr : ListCache
  pub has_inode : Bool

-- A cache and the record of what was asked for.
pub record Logged : Type 0 where
  pub cache : Cache
  pub log : List Event

abbrev pub empty_bucket : Bucket
empty_bucket = record { hlist = []; draining = false }

unfoldable pub hash_init : List Bucket
hash_init = replicate hash_size empty_bucket

-- The constructor of the slab.
unfoldable pub cache_init_once : Cache
unfolding hash_init
cache_init_once = record { buckets = hash_init; nent = 0; listxattr = no_list; has_inode = false }

-- `kmem_cache_alloc` gives an object as the constructor or `free_cache` left it.
unfoldable pub alloc_cache : Cache → Cache
alloc_cache slab = record slab { nent = 0 }

abbrev pub is_empty : List Entry → Bool
is_empty [] = true
is_empty (e ∷ es) = false

-- `nfs4_xattr_free_cache_cb`; `none` where a bucket is not empty, and the object is not freed.
unfoldable pub free_buckets : List Bucket → Option (List Bucket)
free_buckets [] = some []
free_buckets (b ∷ bs) =
    let rest = free_buckets bs in
    if is_empty b.hlist
    then elim rest [ none ↦ none | some bs' ↦ some (record b { draining = false } ∷ bs') ]
    else none

abbrev pub freed : Cache → Option (List Bucket) → Option Cache
freed c none = none
freed c (some bs) = some (record c { buckets = bs; listxattr = no_list })

unfoldable pub free_cache : Cache → Option Cache
unfolding free_buckets
free_cache c = freed c (free_buckets c.buckets)

abbrev pub list_lru_add : ListCache → List Event → List Event
list_lru_add no_list log = log
list_lru_add stale log = log
list_lru_add (listed e) log = entry_lru_add e log

-- The old list goes.
abbrev pub list_drop : ListCache → List Event → List Event
list_drop no_list log = log
list_drop stale log = log
list_drop (listed e) log = kref_put e.addr ∷ entry_lru_del e log

abbrev pub is_stale : ListCache → Bool
is_stale stale = true
is_stale _ = false

unfoldable pub set_listcache : ListCache → Logged → Logged × Bool
set_listcache new s =
    let old = s.cache.listxattr in
    if is_stale old then (s, false) else (
      record {
        cache = record s.cache { listxattr = new };
        log = list_drop old (list_lru_add new s.log);
      },
      true,
    )

abbrev pub name_is : Option Name → Name → Bool
name_is none name = false
name_is (some n) name = same_name n name

-- The entry of a name in a chain, and the chain without that entry.
unfoldable pub get_entry : List Entry → Name → Option Entry
get_entry [] name = none
get_entry (e ∷ es) name =
    let rest = get_entry es name in if name_is e.xattr_name name then some e else rest

unfoldable pub hlist_del : List Entry → Name → List Entry
hlist_del [] name = []
hlist_del (e ∷ es) name =
    let rest = hlist_del es name in if name_is e.xattr_name name then es else e ∷ rest

-- Every entry of a chain is dropped.
unfoldable pub drop_chain : List Entry → List Event → List Event
drop_chain [] log = log
drop_chain (e ∷ es) log = drop_chain es (kref_put e.addr ∷ entry_lru_del e log)

unfoldable pub drain : List Bucket → List Event → List Bucket × List Event
unfolding drop_chain
drain [] log = ([], log)
drain (b ∷ bs) log =
    let rest = drain bs (drop_chain b.hlist log) in
    (record { hlist = []; draining = true } ∷ rest.0, rest.1)

-- `nfs4_xattr_discard_cache` up to the last reference.
unfoldable pub discard_cache : Logged → Logged
unfolding set_listcache drain
discard_cache s =
    let s' = (set_listcache stale s).0 in
    let (bs, log) = drain s'.cache.buckets s'.log in
    record { cache = record s'.cache { buckets = bs; nent = 0 }; log = log }

-- The chain of a bucket.
abbrev pub chain_of : Option Bucket → List Entry
chain_of none = []
chain_of (some b) = b.hlist

abbrev pub is_draining : Option Bucket → Bool
is_draining none = false
is_draining (some b) = b.draining

abbrev pub set_chain : List Entry → Bucket → Bucket
set_chain es b = record b { hlist = es }

-- The old entry leaves the list of least recently used entries; then its reference is dropped.
abbrev pub forget : Option Entry → List Event → List Event
forget none log = log
forget (some e) log = entry_lru_del e log

abbrev pub put_old : Option Entry → List Event → List Event
put_old none log = log
put_old (some e) log = kref_put e.addr ∷ log

abbrev pub counted_in : Option Entry → ℕ → ℕ
counted_in none n = (n + 1) % 2 ^ 64
counted_in (some e) n = n

abbrev pub counted_out : Option Entry → ℕ → ℕ
counted_out none n = n
counted_out (some e) n = (n + 2 ^ 64 - 1) % 2 ^ 64

module _ (jhash : Name → ℕ → ℕ → ℕ) where
  unfoldable pub hash_bucket : Name → ℕ
  hash_bucket name = jhash name (strlen name) 0 % hash_size

  -- An entry that goes into the table has a name; `name` is the name of `entry`.
  unfoldable pub hash_add : Name → Entry → Logged → Logged × Bool
  unfolding hash_bucket get_entry hlist_del
  hash_add name entry s =
      let i = hash_bucket name in
      let b = get_elem? s.cache.buckets i in
      let old = get_entry (chain_of b) name in
      let entry' : Entry = record entry { bucket = some i } in
      if is_draining b then (s, false) else (
        record {
          cache = record s.cache {
            buckets = modify s.cache.buckets i (set_chain (entry' ∷ hlist_del (chain_of b) name));
            nent = counted_in old s.cache.nent;
          };
          log = put_old old (entry_lru_add entry' (forget old s.log));
        },
        true,
      )

  unfoldable pub hash_remove : Name → Logged → Logged
  unfolding hash_bucket get_entry hlist_del
  hash_remove name s =
      let i = hash_bucket name in
      let b = get_elem? s.cache.buckets i in
      let old = get_entry (chain_of b) name in
      record {
        cache = record s.cache {
          buckets = modify s.cache.buckets i (set_chain (hlist_del (chain_of b) name));
          nent = counted_out old s.cache.nent;
        };
        log = put_old old (forget old s.log);
      }

  -- The entry, with one more reference to it.
  unfoldable pub hash_find : Name → Logged → Option Entry × Logged
  unfolding hash_bucket get_entry
  hash_find name s =
      let found = get_entry (chain_of (get_elem? s.cache.buckets (hash_bucket name))) name in
      (found, elim found [ none ↦ s | some e ↦ record s { log = kref_get e.addr ∷ s.log } ])

-- ===== src/Xattr/Shrink.antt =====
-- Freeing entries under memory pressure: mynfs/nfs42xattr.c, `entry_lru_isolate` and
-- `nfs4_xattr_entry_scan`, for the entries of one cache, and `cache_lru_isolate` with
-- `nfs4_xattr_cache_scan` for the cache of an inode.
use mynfs.Base.{
  ℕ, zero, suc, ◌^◌, ltb, if◌then◌else◌, Bool, true, false, not, ◌&&◌, Option, none, some, List, [],
  ◌∷◌, ◌++◌, get_elem?, modify,
}
use mynfs.Xattr.Entry.{
  Entry, Event, kref_get, kref_put, lru_del, cache_get, cache_put, cache_lru_del,
}
use mynfs.Xattr.Table.{ListCache, no_list, listed, Cache, Logged, chain_of, set_chain, counted_out}
use mynfs.Xattr.Inode.{World, on_cache, set_has_inode, note, discard}

-- Where the entry at hand is: in a bucket, at a position of its chain, or as the list of names.
pub data Place : Type 0 where
  in_bucket : ℕ → ℕ → Place
  as_list : Place

abbrev pub remove_at : List Entry → ℕ → List Entry
remove_at [] k = []
remove_at (e ∷ es) zero = es
remove_at (e ∷ es) (suc k) = e ∷ remove_at es k

-- A reference is taken, and the entry leaves the list of least recently used entries.
abbrev pub isolated : Entry → List Event → List Event
isolated e log = lru_del e.extval e.addr ∷ kref_get e.addr ∷ log

abbrev pub take_bucket : ℕ → ℕ → Option Entry → Logged → Logged × Option Entry
take_bucket i k none s = (s, none)
take_bucket i k (some e) s = (
  record {
    cache = record s.cache {
      buckets =
          modify s.cache.buckets i
            (set_chain (remove_at (chain_of (get_elem? s.cache.buckets i)) k));
      nent = counted_out (some e) s.cache.nent;
    };
    log = isolated e s.log;
  },
  some e,
)

abbrev pub take_list : ListCache → Logged → Logged × Option Entry
take_list (listed e) s =
    (record { cache = record s.cache { listxattr = no_list }; log = isolated e s.log }, some e)
take_list _ s = (s, none)

-- `locked` is whether the lock of the bucket or of the list can be had; the result is the entry to be
-- disposed of.
unfoldable pub entry_lru_isolate : Bool → Place → Logged → Logged × Option Entry
entry_lru_isolate false place s = (s, none)
entry_lru_isolate true (in_bucket i k) s =
    take_bucket i k (get_elem? (chain_of (get_elem? s.cache.buckets i)) k) s
entry_lru_isolate true as_list s = take_list s.cache.listxattr s

abbrev pub disposed : Option Entry → List Entry → List Entry
disposed none es = es
disposed (some e) es = es ++ e ∷ []

unfoldable pub shrink_walk : List (Bool × Place) → Logged → List Entry → Logged × List Entry
unfolding entry_lru_isolate
shrink_walk [] s dispose = (s, dispose)
shrink_walk ((locked, place) ∷ rest) s dispose =
    let (s', e) = entry_lru_isolate locked place s in shrink_walk rest s' (disposed e dispose)

unfoldable pub dispose_all : List Entry → List Event → List Event
dispose_all [] log = log
dispose_all (e ∷ es) log = dispose_all es (kref_put e.addr ∷ kref_put e.addr ∷ log)

-- Over the entries that the kernel's walk comes to, in its order.
unfoldable pub entry_scan : List (Bool × Place) → Logged → Logged
unfolding shrink_walk dispose_all
entry_scan places s =
    let (s', dispose) = shrink_walk places s [] in record s' { log = dispose_all dispose s'.log }

-- More than one entry; `nent` is a signed 64-bit number.
abbrev pub has_many : Cache → Bool
has_many c = ltb 1 c.nent && ltb c.nent (2 ^ 63)

-- For the cache of the inode; `locked` is whether the inode's lock can be had. With whether the cache
-- is to be disposed of.
abbrev pub isolate_cache : Bool → ℕ → Option Cache → World → World × Bool
isolate_cache locked c none w = (w, false)
isolate_cache locked c (some x) w =
    if not (has_many x) && locked
    then (
      note (cache_lru_del c) (record (on_cache c (set_has_inode false) (note (cache_get c) w)) {
        xattr_cache = none;
        invalid_xattr = false;
      }),
      true,
    )
    else (w, false)

unfoldable pub cache_lru_isolate : Bool → ℕ → World → World × Bool
cache_lru_isolate locked c w = isolate_cache locked c (get_elem? w.caches c) w

unfoldable pub cache_scan : Bool → ℕ → World → World
unfolding cache_lru_isolate discard
cache_scan locked c w =
    let (w', removed) = cache_lru_isolate locked c w in
    if removed then note (cache_put c) (discard (some c) w') else w'

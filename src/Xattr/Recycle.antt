-- ===== src/Xattr/Recycle.antt =====
-- A cache that was discarded, and freed with its last reference, can be allocated again.
use mynfs.Base.{ℕ, zero, suc, ◌≡◌, refl, ap, ◌∙◌, true, some, List, [], ◌∷◌, length, replicate}
use mynfs.Xattr.Entry.{Event}
use mynfs.Xattr.Table.{
  Bucket, Logged, no_list, stale, hash_size, empty_bucket, hash_init, set_listcache, drain,
  discard_cache, free_buckets, freed, free_cache,
}
use mynfs.Xattr.Acts.{set_listcache_buckets}

abbrev drained : Bucket
drained = record { hlist = []; draining = true }

drain-replicate :
    (bs : List Bucket) (log : List Event) → (drain bs log).0 ≡ replicate (length bs) drained
unfolding drain
drain-replicate [] log = refl
drain-replicate (b ∷ bs) log = ap (λ rest. drained ∷ rest) (drain-replicate bs _)

free_buckets-replicate :
    (n : ℕ) → free_buckets (replicate n drained) ≡ some (replicate n empty_bucket)
unfolding free_buckets
free_buckets-replicate zero = refl
free_buckets-replicate (suc n) = rw (free_buckets-replicate n) refl

-- A cache that was discarded is empty and lets nothing in; with its last reference it is freed, and
-- then its buckets and its list are as the constructor of the slab leaves them.
discard_cache-free_cache :
    (s : Logged)
    → length s.cache.buckets ≡ hash_size
    → let c = (discard_cache s).cache in
      (c.buckets ≡ replicate hash_size (record { hlist = []; draining = true }))
      × (c.nent ≡ 0)
      × (free_cache c ≡ some (record c { buckets = hash_init; listxattr = no_list }))
unfolding discard_cache free_cache hash_init
discard_cache-free_cache s n =
    let s' = (set_listcache stale s).0 in
    let e : (drain s'.cache.buckets s'.log).0 ≡ replicate hash_size drained =
      rw (drain-replicate s'.cache.buckets s'.log, set_listcache_buckets stale s, n) refl in
    let c = (discard_cache s).cache in
    (e, refl, ap (freed c) (ap free_buckets e ∙ free_buckets-replicate hash_size))

-- ===== src/Xattr/Linked.antt =====
-- Finding or making the cache of an inode: what `nfs4_xattr_get_cache` leaves, where nobody interferes
-- and there is memory.
use mynfs.Base.{
  ℕ, zero, suc, ◌≡◌, refl, ap, sym, subst, ◌∙◌, ◌≢◌, if◌then◌else◌, true, false, Option, none, some,
  List, [], ◌∷◌, ◌++◌, length, get_elem?, replicate, length-modify, get_elem?-modify_self,
  get_elem?-modify_ne, arith,
}
use mynfs.Xattr.Entry.{Name, cache_get}
use mynfs.Xattr.Table.{
  Cache, Logged, hash_init, hash_size, alloc_cache, discard_cache, empty_bucket, chain_of,
  get_entry, hash_bucket, is_draining,
}
use mynfs.Xattr.Inode.{
  World, on_object, on_cache, logged, note, set_has_inode, discard, new_cache, no_change,
}
use mynfs.Xattr.Chain.{count_name}
use mynfs.Xattr.Buckets.{IsTable, Value, lookup}

module _ (jhash : Name → ℕ → ℕ → ℕ) where
  abbrev pub found_in : Option Cache → Name → Option Value
  found_in none q = none
  found_in (some x) q = lookup jhash x.buckets q

  abbrev pub cached : Option ℕ → List Cache → Name → Option Value
  cached none caches q = none
  cached (some c) caches q = found_in (get_elem? caches c) q

  -- The abstract content of an inode's cache: a partial map from names.
  unfoldable pub contents : World → Name → Option Value
  contents w q = if w.invalid_xattr then none else cached w.xattr_cache w.caches q

-- The cache at a position has a sound table.
pub record HasTable (caches : List Cache) (c : ℕ) : Type 0 where
  pub object : Cache
  pub at : get_elem? caches c ≡ some object
  pub table : IsTable object.buckets

abbrev pub Linked : Option ℕ → List Cache → Type 0
Linked none caches = Unit {0}
Linked (some c) caches = HasTable caches c

abbrev pub IsLinked : World → Type 0
IsLinked w = Linked w.xattr_cache w.caches

get_elem?-append_last :
    {A : Type 0} (xs : List A) (x : A) → get_elem? (xs ++ x ∷ []) (length xs) ≡ some x
get_elem?-append_last [] x = refl
get_elem?-append_last (y ∷ ys) x = get_elem?-append_last ys x

fresh_at : (n i : ℕ) → chain_of (get_elem? (replicate n empty_bucket) i) ≡ []
fresh_at zero i = refl
fresh_at (suc n) zero = refl
fresh_at (suc n) (suc i) = fresh_at n i

live_at : (n i : ℕ) → is_draining (get_elem? (replicate n empty_bucket) i) ≡ false
live_at zero i = refl
live_at (suc n) zero = refl
live_at (suc n) (suc i) = live_at n i

length-replicate : {A : Type 0} (n : ℕ) (a : A) → length (replicate n a) ≡ n
length-replicate zero a = refl
length-replicate (suc n) a = ap suc (length-replicate n a)

pub hash_init-IsTable : IsTable hash_init
unfolding hash_init count_name
hash_init-IsTable = record {
  sized = length-replicate hash_size empty_bucket;
  live = live_at hash_size;
  single = λ i q. rw (fresh_at hash_size i) (omega arith);
}

pub lookup-hash_init : (jhash : Name → ℕ → ℕ → ℕ) (q : Name) → lookup jhash hash_init q ≡ none
unfolding hash_init lookup get_entry
lookup-hash_init jhash q = rw (fresh_at hash_size (hash_bucket jhash q)) refl

-- What is done to one cache is seen there, and not at the others; the pointer and the flag stay.
pub on_cache_self :
    (c : ℕ) (f : Logged → Logged) (w : World) (x : Cache)
    → get_elem? w.caches c ≡ some x
    → get_elem? (on_cache c f w).caches c ≡ some (f (logged w x)).cache
on_cache_self c f w x e =
    subst
      (λ (o : Option Cache). get_elem? (on_object o c f w).caches c ≡ some (f (logged w x)).cache)
      (sym e) (get_elem?-modify_self w.caches c (λ y. (f (logged w x)).cache) e)

on_object_ne :
    (o : Option Cache) (c d : ℕ) (f : Logged → Logged) (w : World)
    → c ≢ d
    → get_elem? (on_object o c f w).caches d ≡ get_elem? w.caches d
on_object_ne none c d f w h = refl
on_object_ne (some x) c d f w h = get_elem?-modify_ne w.caches c d (λ y. (f (logged w x)).cache) h

pub on_cache_ne :
    (c d : ℕ) (f : Logged → Logged) (w : World)
    → c ≢ d
    → get_elem? (on_cache c f w).caches d ≡ get_elem? w.caches d
on_cache_ne c d f w h = on_object_ne (get_elem? w.caches c) c d f w h

pub on_object_kept :
    (o : Option Cache) (c : ℕ) (f : Logged → Logged) (w : World)
    → let w' = on_object o c f w in
      (w'.xattr_cache ≡ w.xattr_cache)
      × (w'.invalid_xattr ≡ w.invalid_xattr)
      × (length w'.caches ≡ length w.caches)
on_object_kept none c f w = (refl, refl, refl)
on_object_kept (some x) c f w = (refl, refl, length-modify w.caches c (λ y. (f (logged w x)).cache))

pub on_cache_kept :
    (c : ℕ) (f : Logged → Logged) (w : World)
    → let w' = on_cache c f w in
      (w'.xattr_cache ≡ w.xattr_cache)
      × (w'.invalid_xattr ≡ w.invalid_xattr)
      × (length w'.caches ≡ length w.caches)
on_cache_kept c f w = on_object_kept (get_elem? w.caches c) c f w

-- The cache at `c` is the inode's, it is valid, and its table is new.
pub record IsNew (c : ℕ) (r : World × Option ℕ) : Type 0 where
  pub found : r.1 ≡ some c
  pub linked : r.0.xattr_cache ≡ some c
  pub live : r.0.invalid_xattr ≡ false
  pub object : Cache
  pub at : get_elem? r.0.caches c ≡ some object
  pub fresh : object.buckets ≡ hash_init

pub new_cache-IsNew :
    (object : Cache) (w : World)
    → object.buckets ≡ hash_init
    → w.xattr_cache ≡ none
    → w.invalid_xattr ≡ false
    → IsNew (length w.caches) (new_cache (some object) no_change w)
unfolding new_cache alloc_cache
new_cache-IsNew object w b p v =
    let c = length w.caches in
    let grown : World =
      record (note (cache_get c) (record w { caches = w.caches ++ alloc_cache object ∷ [] })) {
        xattr_cache = some c;
      } in
    let (q, f, l) = on_cache_kept c (set_has_inode true) grown in
    let e =
      on_cache_self c (set_has_inode true) grown (alloc_cache object)
        (get_elem?-append_last w.caches (alloc_cache object)) in
    rw (v, p)
      (record {
        found = refl;
        linked = q;
        live = f ∙ v;
        object = record (alloc_cache object) { has_inode = true };
        at = e;
        fresh = b;
      })

pub discard-IsNew :
    (old : Option ℕ) (c : ℕ) (w : World) (found : Option ℕ)
    → old ≢ some c
    → IsNew c (w, found)
    → IsNew c (discard old w, found)
unfolding discard
discard-IsNew none c w found h t = t
discard-IsNew (some d) c w found h t =
    let (q, f, l) = on_cache_kept d discard_cache w in
    record {
      found = t.found;
      linked = q ∙ t.linked;
      live = f ∙ t.live;
      object = t.object;
      at = on_cache_ne d c discard_cache w (λ e. h (ap some e)) ∙ t.at;
      fresh = t.fresh;
    }

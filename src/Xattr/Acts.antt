-- ===== src/Xattr/Acts.antt =====
-- What the functions on one cache, and the entry points, do to the map from names to values.
use mynfs.Base.{
  ℕ, ◌≡◌, refl, ap, sym, subst, ◌∙◌, if◌then◌else◌, Bool, true, false, Option, none, some, List,
  get_elem?, arith,
}
use mynfs.Xattr.Entry.{Name, same_name, Entry}
use mynfs.Xattr.Table.{Bucket, Cache, Logged, ListCache, hash_add, no_list, set_listcache}
use mynfs.Xattr.Inode.{
  World, on_cache, logged, list_added, on_found, cache_zap, add_entry, remove_entry, cache_unlink,
}
use mynfs.Xattr.Buckets.{IsTable, Value, entry_value, lookup, hash_add-IsTable, hash_remove-IsTable}
use mynfs.Xattr.Linked.{contents, IsLinked, Linked, HasTable, on_cache_self, on_cache_kept}
use mynfs.Xattr.Found.{Gets, contents-none, discard_kept, Linked-some}

-- A change of a map, name by name.
abbrev pub Change : Type 0
Change = Name → Option Value → Option Value

abbrev pub keep : Change
keep q old = old

abbrev pub forget_all : Change
forget_all q old = none

abbrev pub put : Name → Option Value → Change
put name v q old = if same_name name q then v else old

pub set_listcache_buckets :
    (new : ListCache) (s : Logged) → (set_listcache new s).0.cache.buckets ≡ s.cache.buckets
unfolding set_listcache
set_listcache_buckets new s = ground arith

list_added_buckets :
    (e : Entry) (s : Logged) → (list_added (some e) s).cache.buckets ≡ s.cache.buckets
unfolding list_added set_listcache
list_added_buckets e s = ground arith

module _ (jhash : Name → ℕ → ℕ → ℕ) where
  -- A function on one cache does this to the map, and keeps the table sound.
  pub record Acts (f : Logged → Logged) (h : Change) : Type 0 where
    pub table : (s : Logged) → IsTable s.cache.buckets → IsTable (f s).cache.buckets
    pub shows :
        (s : Logged)
        → IsTable s.cache.buckets
        → (q : Name) → lookup jhash (f s).cache.buckets q ≡ h q (lookup jhash s.cache.buckets q)

  pub remove-Acts : (name : Name) → Acts (remove_entry jhash name) (put name none)
  unfolding remove_entry
  remove-Acts name =
      let t = λ (s : Logged) (i : IsTable s.cache.buckets).
        hash_remove-IsTable jhash name (set_listcache no_list s).0
          (rw (set_listcache_buckets no_list s) i) in
      record {
        table = λ s i. (t s i).0;
        shows = λ s i q. (t s i).1 q ∙ rw (set_listcache_buckets no_list s) refl;
      }

  -- The change that an addition makes.
  abbrev pub added : Name → Option Entry → Change
  added name none = keep
  added name (some e) = put name (some (entry_value e))

  abbrev pub IsNamed : Name → Option Entry → Type 0
  IsNamed name none = Unit {0}
  IsNamed name (some e) = e.xattr_name ≡ some name

  pub add-Acts :
      (name : Name) (entry : Option Entry)
      → IsNamed name entry
      → Acts (add_entry jhash name entry) (added name entry)
  unfolding add_entry
  add-Acts name none n = record { table = λ s i. i; shows = λ s i q. refl }
  add-Acts name (some e) n =
      let t = λ (s : Logged) (i : IsTable s.cache.buckets).
        hash_add-IsTable jhash name e (set_listcache no_list s).0 n
          (rw (set_listcache_buckets no_list s) i) in
      record {
        table = λ s i. let (ok, table, shows) = t s i in rw ok table;
        shows = λ s i q.
            let (ok, table, shows) = t s i in
            rw ok (
              subst
                (λ (bs : List Bucket).
                  lookup jhash (hash_add jhash name e (set_listcache no_list s).0).0.cache.buckets q
                  ≡ put name (some (entry_value e)) q (lookup jhash bs q))
                (set_listcache_buckets no_list s) (shows q));
      }

  pub list-Acts : (entry : Option Entry) → Acts (list_added entry) keep
  unfolding list_added set_listcache
  list-Acts none = record { table = λ s i. i; shows = λ s i q. refl }
  list-Acts (some e) = record {
    table = λ s i. rw (list_added_buckets e s) i;
    shows = λ s i q. rw (list_added_buckets e s) refl;
  }

  pub contents-at :
      (w : World) (c : ℕ) (x : Cache) (q : Name)
      → w.invalid_xattr ≡ false
      → w.xattr_cache ≡ some c
      → get_elem? w.caches c ≡ some x
      → contents jhash w q ≡ lookup jhash x.buckets q
  unfolding contents
  contents-at w c x q v p e = rw (v, p, e) refl

  -- What an entry point does to the map, once it has the cache.
  pub act-shows :
      (add : Bool) (w : World) (r : World × Option ℕ) (f : Logged → Logged) (h : Change)
      → Acts f h
      → ((q : Name) → add ≡ false → h q none ≡ none)
      → Gets add w r
      → let w' = on_found f r in
        IsLinked w' × ((q : Name) → contents jhash w' q ≡ h q (contents jhash w q))
  unfolding contents
  act-shows true w (w', none) f h a n g = let (c, e) = g.found refl in cc
  act-shows false w (w', none) f h a n g =
      let nothing : (q : Name) → contents jhash w q ≡ none =
        λ q. sym (g.same jhash q) ∙ contents-none jhash w' q g.linked in
      (g.sound, λ q. g.same jhash q ∙ nothing q ∙ sym (rw (nothing q) (n q refl)))
  act-shows add w (w', some c) f h a n g =
      let s : HasTable w'.caches c =
        subst (λ (p : Option ℕ). Linked p w'.caches) g.linked g.sound in
      let (p, v, l) = on_cache_kept c f w' in
      let e = on_cache_self c f w' s.object s.at in
      (
        Linked-some (on_cache c f w').xattr_cache (on_cache c f w') c (p ∙ g.linked) (record {
          object = (f (logged w' s.object)).cache;
          at = e;
          table = a.table (logged w' s.object) s.table;
        }),
        λ q.
            let before : lookup jhash s.object.buckets q ≡ contents jhash w q =
              sym (contents-at w' c s.object q g.live g.linked s.at) ∙ g.same jhash q in
            contents-at (on_cache c f w') c (f (logged w' s.object)).cache q (v ∙ g.live)
              (p ∙ g.linked) e
            ∙ a.shows (logged w' s.object) s.table q
            ∙ ap (h q) before,
      )

  pub unlinked-contents :
      (w : World) → let w' = cache_zap w in IsLinked w' × ((q : Name) → contents jhash w' q ≡ none)
  unfolding cache_zap cache_unlink
  unlinked-contents w =
      let unlinked = (cache_unlink w).0 in
      let (p, v) = discard_kept w.xattr_cache unlinked in
      (rw p tt, λ q. contents-none jhash (cache_zap w) q p)

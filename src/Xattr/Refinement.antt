-- ===== src/Xattr/Refinement.antt =====
-- The cache of extended attributes implements a partial map from names to values.
use mynfs.Base.{
  ℕ, ◌≡◌, refl, ap, sym, subst, ◌∙◌, ltb, ◌==◌, if◌then◌else◌, Bool, true, false, Option, none,
  some, List, [], ◌∷◌, get_elem?, All, arith,
}
use mynfs.Xattr.Entry.{Name, Entry}
use mynfs.Xattr.Table.{Cache, hash_init, get_entry, hash_find, chain_of, hash_bucket}
use mynfs.Xattr.Inode.{
  World, get_cache, found_cache, no_change, Answer, enoent, erange, sized, answer_entry, list_added,
  list_in, list_found, lookup_in, lookup_found, answer_found, cache_list, cache_set_list, cache_zap,
  cache_lookup, add_entry, cache_add, remove_entry, cache_remove,
}
use mynfs.Xattr.Buckets.{Value, entry_value, value_of, lookup}
use mynfs.Xattr.Linked.{contents, IsLinked, Linked, HasTable}
use mynfs.Xattr.Found.{Gets, get_cache-Gets, found_cache-Gets, contents-none}
use mynfs.Xattr.Acts.{
  Change, keep, forget_all, put, remove-Acts, add-Acts, list-Acts, act-shows, contents-at,
  unlinked-contents,
}

-- The calls of the entry points, with the memory that each gets, and the invalidation by others.
pub data Op : Type 0 where
  lookup_op : Name → ℕ → Op
  list_op : ℕ → Op
  add_op : Cache → Name → Option Entry → Op
  remove_op : Name → Op
  set_list_op : Cache → Option Entry → Op
  zap_op invalidate_op : Op

abbrev pub run : (Name → ℕ → ℕ → ℕ) → Op → World → World
run jhash (lookup_op name buflen) w = (cache_lookup jhash name buflen w).0
run jhash (list_op buflen) w = (cache_list buflen w).0
run jhash (add_op slab name entry) w = cache_add jhash (some slab) no_change name entry w
run jhash (remove_op name) w = cache_remove jhash name w
run jhash (set_list_op slab entry) w = cache_set_list (some slab) no_change entry w
run jhash zap_op w = cache_zap w
run jhash invalidate_op w = record w { invalid_xattr = true }

abbrev pub run_all : (Name → ℕ → ℕ → ℕ) → List Op → World → World
run_all jhash [] w = w
run_all jhash (op ∷ ops) w = run_all jhash ops (run jhash op w)

-- The same on a partial map.
abbrev pub change : Op → Change
change (lookup_op name buflen) = keep
change (list_op buflen) = keep
change (add_op slab name none) = keep
change (add_op slab name (some e)) = put name (some (entry_value e))
change (remove_op name) = put name none
change (set_list_op slab entry) = keep
change zap_op = forget_all
change invalidate_op = forget_all

abbrev pub change_all : List Op → Change
change_all [] q old = old
change_all (op ∷ ops) q old = change_all ops q (change op q old)

-- A cache is allocated as the constructor or the last user left it, and an entry has its name.
abbrev pub IsFit : Op → Type 0
IsFit (add_op slab name none) = slab.buckets ≡ hash_init
IsFit (add_op slab name (some e)) = (slab.buckets ≡ hash_init) × (e.xattr_name ≡ some name)
IsFit (set_list_op slab entry) = slab.buckets ≡ hash_init
IsFit _ = Unit {0}

-- The answer to a lookup, from the map.
abbrev pub answer : Option Value → ℕ → Answer
answer none buflen = enoent
answer (some (n, bytes)) buflen =
    if buflen == 0 then sized n none else if ltb buflen n then erange else sized n (some bytes)

answer_found_lem :
    (o : Option Entry) (buflen : ℕ) → answer_found o buflen ≡ answer (value_of o) buflen
unfolding answer_entry
answer_found_lem none buflen = refl
answer_found_lem (some e) buflen = refl

module _ (jhash : Name → ℕ → ℕ → ℕ) where
  -- The step shows the change.
  abbrev pub Shows : World → Change → World → Type 0
  Shows w h w' = IsLinked w' × ((q : Name) → contents jhash w' q ≡ h q (contents jhash w q))

  lookup_in_kept :
      (name : Name) (buflen c : ℕ) (w : World) (o : Option Cache)
      → IsLinked w
      → Shows w keep (lookup_in jhash name buflen c w o).0
  unfolding contents
  lookup_in_kept name buflen c w none s = (s, λ q. refl)
  lookup_in_kept name buflen c w (some x) s = (s, λ q. refl)

  lookup_found_kept :
      (name : Name) (buflen : ℕ) (r : World × Option ℕ)
      → IsLinked r.0
      → Shows r.0 keep (lookup_found jhash name buflen r).0
  lookup_found_kept name buflen (w, none) s = (s, λ q. refl)
  lookup_found_kept name buflen (w, some c) s =
      lookup_in_kept name buflen c w (get_elem? w.caches c) s

  list_in_kept :
      (buflen c : ℕ) (w : World) (o : Option Cache)
      → IsLinked w
      → Shows w keep (list_in buflen c w o).0
  unfolding contents
  list_in_kept buflen c w none s = (s, λ q. refl)
  list_in_kept buflen c w (some x) s = (s, λ q. refl)

  list_found_kept :
      (buflen : ℕ) (r : World × Option ℕ) → IsLinked r.0 → Shows r.0 keep (list_found buflen r).0
  list_found_kept buflen (w, none) s = (s, λ q. refl)
  list_found_kept buflen (w, some c) s = list_in_kept buflen c w (get_elem? w.caches c) s

  -- Finding the cache and then a step that keeps the map.
  kept-Shows :
      (add : Bool) (w : World) (r : World × Option ℕ) (w' : World)
      → Gets add w r
      → Shows r.0 keep w'
      → Shows w keep w'
  kept-Shows add w r w' g (s, t) = (s, λ q. t q ∙ g.same jhash q)

  put-none : (name q : Name) → put name none q none ≡ none
  put-none name q = ground arith

  run-Shows : (op : Op) (w : World) → IsFit op → IsLinked w → Shows w (change op) (run jhash op w)
  unfolding cache_lookup cache_list cache_add cache_remove cache_set_list contents
  run-Shows (lookup_op name buflen) w f s =
      let g = found_cache-Gets w s in
      kept-Shows false w (found_cache w) (lookup_found jhash name buflen (found_cache w)).0 g
        (lookup_found_kept name buflen (found_cache w) g.sound)
  run-Shows (list_op buflen) w f s =
      let g = found_cache-Gets w s in
      kept-Shows false w (found_cache w) (list_found buflen (found_cache w)).0 g
        (list_found_kept buflen (found_cache w) g.sound)
  run-Shows (add_op slab name none) w f s =
      act-shows jhash true w (get_cache (some slab) no_change true w) (add_entry jhash name none)
        keep (add-Acts jhash name none tt) (λ q e. refl) (get_cache-Gets slab f true w s)
  run-Shows (add_op slab name (some e)) w (f, n) s =
      act-shows jhash true w (get_cache (some slab) no_change true w)
        (add_entry jhash name (some e)) (put name (some (entry_value e)))
        (add-Acts jhash name (some e) n) (λ q e. cc) (get_cache-Gets slab f true w s)
  run-Shows (remove_op name) w f s =
      act-shows jhash false w (found_cache w) (remove_entry jhash name) (put name none)
        (remove-Acts jhash name) (λ q e. put-none name q) (found_cache-Gets w s)
  run-Shows (set_list_op slab entry) w f s =
      act-shows jhash true w (get_cache (some slab) no_change true w) (list_added entry) keep
        (list-Acts jhash entry) (λ q e. refl) (get_cache-Gets slab f true w s)
  run-Shows zap_op w f s = unlinked-contents jhash w
  run-Shows invalidate_op w f s = (s, λ q. refl)

  -- From an inode whose cache, if it has one, has a sound table, after any sequence of calls without
  -- interference and with memory for the caches, the content of the inode's cache is what the same
  -- sequence makes of a partial map: an added entry is found with its size and that many bytes, a
  -- removed one is not, an invalidation or a zap forgets all; a call that finds no memory for the
  -- entry, and the calls that read or that set the list of names, change nothing. The table stays
  -- sound.
  pub run_all-change_all :
      (ops : List Op) (w : World)
      → All IsFit ops
      → IsLinked w
      → IsLinked (run_all jhash ops w)
        × ((q : Name)
            → contents jhash (run_all jhash ops w) q ≡ change_all ops q (contents jhash w q))
  run_all-change_all [] w f s = (s, λ q. refl)
  run_all-change_all (op ∷ ops) w (f, fs) s =
      let (t, shows) = run-Shows op w f s in
      let (u, rest) = run_all-change_all ops (run jhash op w) fs t in
      (u, λ q. rest q ∙ ap (change_all ops q) (shows q))

  lookup_in-answer :
      (name : Name) (buflen c : ℕ) (w : World) (x : Cache)
      → (lookup_in jhash name buflen c w (some x)).1 ≡ answer (lookup jhash x.buckets name) buflen
  unfolding hash_find lookup answer_entry
  lookup_in-answer name buflen c w x =
      answer_found_lem (get_entry (chain_of (get_elem? x.buckets (hash_bucket jhash name))) name)
        buflen

  lookup_found-answer :
      (name : Name) (buflen : ℕ) (w : World) (r : World × Option ℕ)
      → Gets false w r
      → (lookup_found jhash name buflen r).1 ≡ answer (contents jhash w name) buflen
  lookup_found-answer name buflen w (w', none) g =
      rw (sym (g.same jhash name), contents-none jhash w' name g.linked) refl
  lookup_found-answer name buflen w (w', some c) g =
      let s : HasTable w'.caches c =
        subst (λ (p : Option ℕ). Linked p w'.caches) g.linked g.sound in
      ap (λ (o : Option Cache). (lookup_in jhash name buflen c w' o).1) s.at
      ∙ lookup_in-answer name buflen c w' s.object
      ∙ ap (λ (v : Option Value). answer v buflen)
          (sym (contents-at jhash w' c s.object name g.live g.linked s.at) ∙ g.same jhash name)

  -- On an inode whose cache, if it has one, has a sound table, a lookup answers from the content of
  -- the cache: no such entry, or the entry's size, with its bytes where the buffer takes them all,
  -- without them where the buffer's size is 0, and an error where it is smaller than the entry. An
  -- invalid cache answers as an empty one.
  cache_lookup-answer :
      (name : Name) (buflen : ℕ) (w : World)
      → IsLinked w
      → (cache_lookup jhash name buflen w).1 ≡ answer (contents jhash w name) buflen
  unfolding cache_lookup
  cache_lookup-answer name buflen w s =
      lookup_found-answer name buflen w (found_cache w) (found_cache-Gets w s)

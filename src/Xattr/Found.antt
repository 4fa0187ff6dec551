-- ===== src/Xattr/Found.antt =====
-- What `nfs4_xattr_get_cache` leaves, where nobody interferes and there is memory.
use mynfs.Base.{
  ℕ, ◌≡◌, refl, sym, ◌∙◌, ◌≢◌, if◌then◌else◌, Bool, true, false, Option, none, some, length,
  get_elem?-some, Bool-cases, inl, inr, arith,
}
use mynfs.Xattr.Entry.{Name, cache_lru_del}
use mynfs.Xattr.Table.{Cache, cache_init_once, hash_init, discard_cache}
use mynfs.Xattr.Inode.{
  World, set_has_inode, unlink_old, note, cache_unlink, discard, get_ref, add_cache, get_cache,
  found_cache, no_change,
}
use mynfs.Xattr.Linked.{
  contents, IsLinked, Linked, HasTable, hash_init-IsTable, lookup-hash_init, on_cache_kept, IsNew,
  new_cache-IsNew, discard-IsNew,
}

-- The cache found is the inode's, with a sound table, it is valid, and shows what was there before.
pub record Gets (add : Bool) (w : World) (r : World × Option ℕ) : Type 0 where
  pub sound : IsLinked r.0
  pub live : r.0.invalid_xattr ≡ false
  pub linked : r.0.xattr_cache ≡ r.1
  pub same : (jhash : Name → ℕ → ℕ → ℕ) (q : Name) → contents jhash r.0 q ≡ contents jhash w q
  pub found : add ≡ true → (c : ℕ) × (r.1 ≡ some c)

pub Linked-some :
    (p : Option ℕ) (w : World) (c : ℕ) → p ≡ some c → HasTable w.caches c → Linked p w.caches
Linked-some p w c e h = rw e h

IsNew-Gets :
    (add : Bool) (c : ℕ) (w : World) (r : World × Option ℕ)
    → IsNew c r
    → ((jhash : Name → ℕ → ℕ → ℕ) (q : Name) → contents jhash w q ≡ none)
    → Gets add w r
unfolding contents
IsNew-Gets add c w r n h = record {
  sound =
      Linked-some r.0.xattr_cache r.0 c n.linked
        (record { object = n.object; at = n.at; table = rw n.fresh hash_init-IsTable });
  live = n.live;
  linked = n.linked ∙ sym n.found;
  same =
      λ jhash q. rw (n.live, n.linked, n.at, n.fresh) (lookup-hash_init jhash q) ∙ sym (h jhash q);
  found = λ e. (c, n.found);
}

pub contents-none :
    (jhash : Name → ℕ → ℕ → ℕ) (w : World) (q : Name)
    → w.xattr_cache ≡ none
    → contents jhash w q ≡ none
unfolding contents
contents-none jhash w q p =
    rw p (elim (Bool-cases w.invalid_xattr) [ inl e ↦ rw e refl | inr e ↦ rw e refl ])

contents-invalid :
    (jhash : Name → ℕ → ℕ → ℕ) (w : World) (q : Name)
    → w.invalid_xattr ≡ true
    → contents jhash w q ≡ none
unfolding contents
contents-invalid jhash w q e = rw e refl

-- Nothing is found, and there was nothing.
nothing-Gets :
    (w w' : World)
    → w'.xattr_cache ≡ none
    → w'.invalid_xattr ≡ false
    → ((jhash : Name → ℕ → ℕ → ℕ) (q : Name) → contents jhash w q ≡ none)
    → Gets false w (w', none)
nothing-Gets w w' p v h = record {
  sound = rw p tt;
  live = v;
  linked = p;
  same = λ jhash q. contents-none jhash w' q p ∙ sym (h jhash q);
  found = λ e. cc;
}

module _ (object : Cache) (fresh : object.buckets ≡ hash_init) where
  valid-Gets :
      (add : Bool) (p : Option ℕ) (w : World)
      → w.xattr_cache ≡ p
      → w.invalid_xattr ≡ false
      → IsLinked w
      → Gets add w (add_cache (some object) no_change add (get_ref p w) p)
  unfolding contents
  valid-Gets add (some c) w p v s = record {
    sound = s;
    live = v;
    linked = p;
    same = λ jhash q. refl;
    found = λ e. (c, refl);
  }
  valid-Gets true none w p v s =
      IsNew-Gets true (length w.caches) w (add_cache (some object) no_change true w none)
        (new_cache-IsNew object w fresh p v) (λ jhash q. contents-none jhash w q p)
  valid-Gets false none w p v s = nothing-Gets w w p v (λ jhash q. contents-none jhash w q p)

pub discard_kept :
    (old : Option ℕ) (w : World)
    → ((discard old w).xattr_cache ≡ w.xattr_cache)
      × ((discard old w).invalid_xattr ≡ w.invalid_xattr)
unfolding discard
discard_kept none w = (refl, refl)
discard_kept (some c) w = let (q, f, l) = on_cache_kept c discard_cache w in (q, f)

unlink_length : (p : Option ℕ) (w : World) → length (unlink_old p w).caches ≡ length w.caches
unlink_length none w = refl
unlink_length (some c) w =
    let (q, f, l) = on_cache_kept c (set_has_inode false) (note (cache_lru_del c) w) in l

Linked-below : (p : Option ℕ) (w : World) → Linked p w.caches → p ≢ some (length w.caches)
Linked-below none w s e = cc
Linked-below (some c) w s e =
    let t = get_elem?-some w.caches c s.at in let u : c ≡ length w.caches = cc in omega arith

Gets-if :
    (b add : Bool) (w : World) (r s : World × Option ℕ)
    → (b ≡ true → Gets add w r)
    → (b ≡ false → Gets add w s)
    → Gets add w (if b then r else s)
Gets-if true add w r s h k = h refl
Gets-if false add w r s h k = k refl

module _ (object : Cache) (fresh : object.buckets ≡ hash_init) where
  invalid-Gets :
      (add : Bool) (w : World)
      → w.invalid_xattr ≡ true
      → IsLinked w
      → let unlinked = (cache_unlink w).0 in
        let r = add_cache (some object) no_change add unlinked none in
        Gets add w (discard w.xattr_cache r.0, r.1)
  unfolding cache_unlink
  invalid-Gets true w v s =
      let unlinked = (cache_unlink w).0 in
      let r = add_cache (some object) no_change true unlinked none in
      let c = length unlinked.caches in
      IsNew-Gets true c w (discard w.xattr_cache r.0, r.1)
        (discard-IsNew w.xattr_cache c r.0 r.1
          (rw (unlink_length w.xattr_cache w) (Linked-below w.xattr_cache w s))
          (new_cache-IsNew object unlinked fresh refl refl))
        (λ jhash q. contents-invalid jhash w q v)
  invalid-Gets false w v s =
      let unlinked = (cache_unlink w).0 in
      let (q, f) = discard_kept w.xattr_cache unlinked in
      nothing-Gets w (discard w.xattr_cache unlinked) q f (λ jhash q. contents-invalid jhash w q v)

  pub get_cache-Gets :
      (add : Bool) (w : World) → IsLinked w → Gets add w (get_cache (some object) no_change add w)
  unfolding get_cache cache_unlink
  get_cache-Gets add w s =
      let unlinked = (cache_unlink w).0 in
      let r = add_cache (some object) no_change add unlinked none in
      Gets-if w.invalid_xattr add w (discard w.xattr_cache r.0, r.1)
        (add_cache (some object) no_change add (get_ref w.xattr_cache w) w.xattr_cache)
        (λ e. invalid-Gets add w e s) (λ e. valid-Gets object fresh add w.xattr_cache w refl e s)

-- Without `add`, the memory does not matter.
no_memory :
    (slab : Option Cache) (w : World) (p : Option ℕ)
    → add_cache slab no_change false w p ≡ add_cache none no_change false w p
no_memory slab w (some c) = refl
no_memory slab w none = refl

pub found_cache-Gets : (w : World) → IsLinked w → Gets false w (found_cache w)
unfolding get_cache hash_init cache_init_once
found_cache-Gets w s =
    rw (sym (no_memory (some cache_init_once) (get_ref w.xattr_cache w) w.xattr_cache))
      (get_cache-Gets cache_init_once refl false w s)

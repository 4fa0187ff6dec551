-- ===== src/Xattr/Buckets.antt =====
-- What a lookup finds after each operation on the hash table of one cache.
use mynfs.Base.{
  ℕ, zero, suc, ◌≤◌, ◌<◌, ◌≡◌, refl, ap, sym, ◌∙◌, ◌≢◌, ◌==◌, ==_iff, if◌then◌else◌, true, false,
  Option, none, some, List, [], ◌∷◌, length, get_elem?, modify, length-modify,
  get_elem?-modify_self, get_elem?-modify_ne, get_elem?_in, Bool-cases, ◌⊎◌, inl, inr, take, arith,
}
use mynfs.Xattr.Entry.{Name, same_name, Entry}
use mynfs.Xattr.Table.{
  Bucket, Logged, hash_size, chain_of, is_draining, set_chain, get_entry, hlist_del, hash_bucket,
  hash_add, hash_remove,
}
use mynfs.Xattr.Chain.{
  same_name-eq, same_name_refl, count_name, get_entry-hlist_del, get_entry-hlist_del_ne,
  count_name-hlist_del_le, get_entry-replace, count_name-replace,
}

-- No bucket is draining, and no name is twice in a bucket.
pub record IsTable (bs : List Bucket) : Type 0 where
  pub sized : length bs ≡ hash_size
  pub live : (i : ℕ) → is_draining (get_elem? bs i) ≡ false
  pub single : (i : ℕ) (q : Name) → count_name (chain_of (get_elem? bs i)) q ≤ 1

-- What a lookup shows of an entry: its size, and that many bytes.
abbrev pub Value : Type 0
Value = ℕ × List ℕ

abbrev pub entry_value : Entry → Value
entry_value e = (e.xattr_size, take e.xattr_size e.xattr_value)

abbrev pub value_of : Option Entry → Option Value
value_of none = none
value_of (some e) = some (entry_value e)

chain-modify_self :
    (bs : List Bucket) (i : ℕ) (es : List Entry)
    → i < length bs
    → chain_of (get_elem? (modify bs i (set_chain es)) i) ≡ es
chain-modify_self bs i es h =
    let (b, e) = get_elem?_in bs i h in rw (get_elem?-modify_self bs i (set_chain es) e) refl

draining-modify :
    (bs : List Bucket) (i j : ℕ) (es : List Entry)
    → is_draining (get_elem? (modify bs i (set_chain es)) j) ≡ is_draining (get_elem? bs j)
draining-modify [] i j es = refl
draining-modify (b ∷ bs) zero zero es = refl
draining-modify (b ∷ bs) zero (suc j) es = refl
draining-modify (b ∷ bs) (suc i) zero es = refl
draining-modify (b ∷ bs) (suc i) (suc j) es = draining-modify bs i j es

differs : (a b : Name) → same_name a b ≡ false → a ≢ b
differs a b m e =
    let t = same_name_refl a in let u : same_name a b ≡ true = rw (sym e) t in ground arith

le_trans : {a b c : ℕ} → a ≤ b → b ≤ c → a ≤ c
le_trans h k = omega arith

-- To decide whether two buckets are the same one.
same_bucket : (i j : ℕ) → (i ≡ j) ⊎ (i ≢ j)
same_bucket i j = elim (Bool-cases (i == j)) [
  | inl e ↦ inl (ground (arith, ==_iff i j))
  | inr e ↦ inr (λ p. ground (arith, ==_iff i j))
]

pub set_chain-IsTable :
    (bs : List Bucket) (i : ℕ) (es : List Entry)
    → i < length bs
    → ((q : Name) → count_name es q ≤ 1)
    → IsTable bs
    → IsTable (modify bs i (set_chain es))
set_chain-IsTable bs i es h c t = record {
  sized = length-modify bs i (set_chain es) ∙ t.sized;
  live = λ j. draining-modify bs i j es ∙ t.live j;
  single = λ j q. elim (same_bucket i j) [
    | inl e ↦ rw (sym e, chain-modify_self bs i es h) (c q)
    | inr d ↦ rw (get_elem?-modify_ne bs i j (set_chain es) d) (t.single j q)
  ];
}

module _ (jhash : Name → ℕ → ℕ → ℕ) where
  pub hash_bucket_lt : (name : Name) → hash_bucket jhash name < hash_size
  unfolding hash_bucket
  hash_bucket_lt name = omega arith

  unfoldable pub lookup : List Bucket → Name → Option Value
  lookup bs q = value_of (get_entry (chain_of (get_elem? bs (hash_bucket jhash q))) q)

  -- The chain of one name's bucket is changed at that name only.
  lookup-set :
      (bs : List Bucket) (name q : Name) (es : List Entry) (new : Option Entry)
      → hash_bucket jhash name < length bs
      → get_entry es q ≡ (
          if same_name name q
          then new
          else get_entry (chain_of (get_elem? bs (hash_bucket jhash name))) q)
      → lookup (modify bs (hash_bucket jhash name) (set_chain es)) q
        ≡ (if same_name name q then value_of new else lookup bs q)
  unfolding lookup
  lookup-set bs name q es new h g = elim (Bool-cases (same_name name q)) [
    | inl m ↦
        let p = ap (hash_bucket jhash) (same_name-eq name q m) in
        let found : get_entry es q ≡ new = g ∙ rw m refl in
        rw (m, sym p, chain-modify_self bs (hash_bucket jhash name) es h) (ap value_of found)
    | inr m ↦ elim (same_bucket (hash_bucket jhash name) (hash_bucket jhash q)) [
      | inl e ↦
          let found : get_entry es q
              ≡ get_entry (chain_of (get_elem? bs (hash_bucket jhash name))) q =
            g ∙ rw m refl in
          rw (m, sym e, chain-modify_self bs (hash_bucket jhash name) es h) (ap value_of found)
      | inr d ↦
          rw
            (
              m,
              get_elem?-modify_ne bs (hash_bucket jhash name) (hash_bucket jhash q) (set_chain es)
                  d,
            )
            refl
    ]
  ]

  -- An entry that is added is found under its name, and the rest as before.
  pub hash_add-IsTable :
      (name : Name) (e : Entry) (s : Logged)
      → e.xattr_name ≡ some name
      → IsTable s.cache.buckets
      → let r = hash_add jhash name e s in
        (r.1 ≡ true)
        × IsTable r.0.cache.buckets
        × ((q : Name)
            → lookup r.0.cache.buckets q
              ≡ (if same_name name q then some (entry_value e) else lookup s.cache.buckets q))
  unfolding hash_add
  hash_add-IsTable name e s n t =
      let i = hash_bucket jhash name in
      let old = chain_of (get_elem? s.cache.buckets i) in
      let e' : Entry = record e { bucket = some i } in
      let h : i < length s.cache.buckets = rw (t.sized) (hash_bucket_lt name) in
      rw (t.live i) (
        refl,
        set_chain-IsTable s.cache.buckets i (e' ∷ hlist_del old name) h
            (λ q. count_name-replace e' old name q n (t.single i)) t,
        λ q.
            lookup-set s.cache.buckets name q (e' ∷ hlist_del old name) (some e') h
              (get_entry-replace e' old name q n),
      )

  remove-get_entry :
      (es : List Entry) (name q : Name)
      → count_name es name ≤ 1
      → get_entry (hlist_del es name) q ≡ (if same_name name q then none else get_entry es q)
  remove-get_entry es name q h = elim (Bool-cases (same_name name q)) [
    | inl m ↦ rw (m, sym (same_name-eq name q m)) (get_entry-hlist_del es name h)
    | inr m ↦ rw m (get_entry-hlist_del_ne es name q (λ d. differs name q m (sym d)))
  ]

  -- An entry that is removed is not found, and the rest is as before.
  pub hash_remove-IsTable :
      (name : Name) (s : Logged)
      → IsTable s.cache.buckets
      → let r = hash_remove jhash name s in
        IsTable r.cache.buckets
        × ((q : Name)
            → lookup r.cache.buckets q
              ≡ (if same_name name q then none else lookup s.cache.buckets q))
  unfolding hash_remove
  hash_remove-IsTable name s t =
      let i = hash_bucket jhash name in
      let old = chain_of (get_elem? s.cache.buckets i) in
      let h : i < length s.cache.buckets = rw (t.sized) (hash_bucket_lt name) in
      (
        set_chain-IsTable s.cache.buckets i (hlist_del old name) h
            (λ q. le_trans (count_name-hlist_del_le old name q) (t.single i q)) t,
        λ q.
            lookup-set s.cache.buckets name q (hlist_del old name) none h
              (remove-get_entry old name q (t.single i name)),
      )

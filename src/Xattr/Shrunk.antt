-- ===== src/Xattr/Shrunk.antt =====
-- The references to the entries of a cache that is shrunk.
use mynfs.Base.{
  ℕ, zero, suc, ◌+◌, ◌*◌, ◌<◌, ◌≡◌, refl, sym, ap, ◌∙◌, Bool, true, false, Option, none, some, List,
  [], ◌∷◌, ◌++◌, length, get_elem?, get_elem?-some, Option-cases, inl, inr, arith,
}
use mynfs.Xattr.Entry.{Entry, Event, kref_put}
use mynfs.Xattr.Table.{Bucket, ListCache, no_list, stale, listed, Logged, chain_of}
use mynfs.Xattr.Shrink.{
  Place, in_bucket, as_list, remove_at, take_bucket, take_list, entry_lru_isolate, disposed,
  shrink_walk, dispose_all, entry_scan,
}
use mynfs.Xattr.Counting.{
  one_at, in_option, in_chain, in_buckets, in_list, gained, dropped, IsBalanced, in_buckets-modify,
}

-- Balanced, with the entries to be disposed of: two references each.
abbrev IsIsolated : List Entry → Logged → Type 0
IsIsolated dispose s =
    (a : ℕ)
    → in_buckets a s.cache.buckets
        + in_list a s.cache.listxattr
        + 2 * in_chain a dispose
        + dropped a s.log
      ≡ gained a s.log

in_chain-remove_at :
    (a : ℕ) (es : List Entry) (k : ℕ)
    → in_chain a (remove_at es k) + in_option a (get_elem? es k) ≡ in_chain a es
in_chain-remove_at a [] k = refl
in_chain-remove_at a (e ∷ es) zero = omega arith
in_chain-remove_at a (e ∷ es) (suc k) = let rest = in_chain-remove_at a es k in omega arith

in_chain-append :
    (a : ℕ) (es : List Entry) (e : Entry) → in_chain a (es ++ e ∷ []) ≡ in_chain a es + one_at a e
in_chain-append a [] e = omega arith
in_chain-append a (x ∷ es) e = let rest = in_chain-append a es e in omega arith

bucket_below :
    (bs : List Bucket) (i k : ℕ) (e : Entry)
    → get_elem? (chain_of (get_elem? bs i)) k ≡ some e
    → i < length bs
bucket_below bs i k e h = elim (Option-cases (get_elem? bs i)) [
  | inl n ↦ let u : none ≡ some e = rw n at h in cc
  | inr (b, p) ↦ get_elem?-some bs i p
]

take_bucket-IsIsolated :
    (i k : ℕ) (o : Option Entry) (s : Logged) (dispose : List Entry)
    → get_elem? (chain_of (get_elem? s.cache.buckets i)) k ≡ o
    → IsIsolated dispose s
    → let r = take_bucket i k o s in IsIsolated (disposed (r.1) dispose) r.0
take_bucket-IsIsolated i k none s dispose h v a = v a
take_bucket-IsIsolated i k (some e) s dispose h v a =
    let es = chain_of (get_elem? s.cache.buckets i) in
    let p =
      in_buckets-modify a s.cache.buckets i (remove_at es k)
        (bucket_below s.cache.buckets i k e h) in
    let q : in_chain a (remove_at es k) + one_at a e ≡ in_chain a es =
      ap (λ (o : Option Entry). in_chain a (remove_at es k) + in_option a o) (sym h)
      ∙ in_chain-remove_at a es k in
    let u = in_chain-append a dispose e in let t = v a in omega arith

take_list-IsIsolated :
    (l : ListCache) (s : Logged) (dispose : List Entry)
    → s.cache.listxattr ≡ l
    → IsIsolated dispose s
    → let r = take_list l s in IsIsolated (disposed (r.1) dispose) r.0
take_list-IsIsolated no_list s dispose h v a = v a
take_list-IsIsolated stale s dispose h v a = v a
take_list-IsIsolated (listed e) s dispose h v a =
    let u = in_chain-append a dispose e in
    let q : in_list a s.cache.listxattr ≡ one_at a e = rw h refl in let t = v a in omega arith

isolate-IsIsolated :
    (locked : Bool) (place : Place) (s : Logged) (dispose : List Entry)
    → IsIsolated dispose s
    → let r = entry_lru_isolate locked place s in IsIsolated (disposed (r.1) dispose) r.0
unfolding entry_lru_isolate
isolate-IsIsolated false place s dispose v = v
isolate-IsIsolated true (in_bucket i k) s dispose v =
    take_bucket-IsIsolated i k (get_elem? (chain_of (get_elem? s.cache.buckets i)) k) s dispose refl
      v
isolate-IsIsolated true as_list s dispose v =
    take_list-IsIsolated s.cache.listxattr s dispose refl v

walk-IsIsolated :
    (places : List (Bool × Place)) (s : Logged) (dispose : List Entry)
    → IsIsolated dispose s
    → let r = shrink_walk places s dispose in IsIsolated (r.1) r.0
unfolding shrink_walk
walk-IsIsolated [] s dispose v = v
walk-IsIsolated ((locked, place) ∷ rest) s dispose v =
    let r = entry_lru_isolate locked place s in
    walk-IsIsolated rest r.0 (disposed (r.1) dispose) (isolate-IsIsolated locked place s dispose v)

dispose_all_lem :
    (a : ℕ) (es : List Entry) (log : List Event)
    → (dropped a (dispose_all es log) ≡ 2 * in_chain a es + dropped a log)
      × (gained a (dispose_all es log) ≡ gained a log)
unfolding dispose_all
dispose_all_lem a [] log = (omega arith, refl)
dispose_all_lem a (e ∷ es) log =
    let (p, q) = dispose_all_lem a es (kref_put e.addr ∷ kref_put e.addr ∷ log) in
    (omega arith, omega arith)

-- Whichever entries the walk comes to, and whichever locks it gets, the references stay balanced.
pub entry_scan-IsBalanced :
    (places : List (Bool × Place)) (s : Logged)
    → IsBalanced none s
    → IsBalanced none (entry_scan places s)
unfolding entry_scan
entry_scan-IsBalanced places s v a =
    let r = shrink_walk places s [] in
    let t = walk-IsIsolated places s [] (λ b. let u = v b in omega arith) a in
    let (p, q) = dispose_all_lem a r.1 r.0.log in omega arith

-- ===== src/Xattr/Counting.antt =====
-- Counting the places of an entry in a cache, and the references gained and dropped.
use mynfs.Base.{
  ℕ, zero, suc, ◌+◌, ◌<◌, ◌≡◌, refl, ◌∙◌, ◌==◌, if◌then◌else◌, Option, none, some, List, [], ◌∷◌,
  length, get_elem?, modify, Bool-cases, inl, inr, arith,
}
use mynfs.Xattr.Entry.{
  Name, Entry, Event, allocated, kref_get, kref_put, entry_lru_add, entry_lru_del,
}
use mynfs.Xattr.Table.{
  Bucket, ListCache, no_list, stale, listed, Logged, chain_of, set_chain, get_entry, hlist_del,
  name_is, list_drop, list_lru_add, put_old, forget, drop_chain, drain,
}

-- How often an address stands for an entry, in a chain, in the table, and in the whole cache.
abbrev pub one_at : ℕ → Entry → ℕ
one_at a e = if e.addr == a then 1 else 0

abbrev pub in_option : ℕ → Option Entry → ℕ
in_option a none = 0
in_option a (some e) = one_at a e

abbrev pub in_chain : ℕ → List Entry → ℕ
in_chain a [] = 0
in_chain a (e ∷ es) = one_at a e + in_chain a es

abbrev pub in_buckets : ℕ → List Bucket → ℕ
in_buckets a [] = 0
in_buckets a (b ∷ bs) = in_chain a b.hlist + in_buckets a bs

abbrev pub in_list : ℕ → ListCache → ℕ
in_list a (listed e) = one_at a e
in_list a _ = 0

-- The references gained and dropped.
abbrev pub gain : ℕ → Event → ℕ
gain a (allocated n) = if n == a then 1 else 0
gain a (kref_get n) = if n == a then 1 else 0
gain a _ = 0

abbrev pub drop : ℕ → Event → ℕ
drop a (kref_put n) = if n == a then 1 else 0
drop a _ = 0

abbrev pub gained : ℕ → List Event → ℕ
gained a [] = 0
gained a (e ∷ es) = gain a e + gained a es

abbrev pub dropped : ℕ → List Event → ℕ
dropped a [] = 0
dropped a (e ∷ es) = drop a e + dropped a es

-- The references to an entry are one for each place of the cache where it stands, and those that the
-- caller has.
abbrev pub IsBalanced : Option Entry → Logged → Type 0
IsBalanced mine s =
    (a : ℕ)
    → in_buckets a s.cache.buckets
        + in_list a s.cache.listxattr
        + in_option a mine
        + dropped a s.log
      ≡ gained a s.log

pub in_chain-hlist_del :
    (a : ℕ) (es : List Entry) (name : Name)
    → in_chain a (hlist_del es name) + in_option a (get_entry es name) ≡ in_chain a es
unfolding hlist_del get_entry
in_chain-hlist_del a [] name = refl
in_chain-hlist_del a (e ∷ es) name =
    let rest = in_chain-hlist_del a es name in
    elim (Bool-cases (name_is e.xattr_name name)) [
      | inl n ↦ rw n (omega arith)
      | inr n ↦ rw n (omega arith)
    ]

pub in_buckets-modify :
    (a : ℕ) (bs : List Bucket) (i : ℕ) (es : List Entry)
    → i < length bs
    → in_buckets a (modify bs i (set_chain es)) + in_chain a (chain_of (get_elem? bs i))
      ≡ in_buckets a bs + in_chain a es
in_buckets-modify a [] i es h = absurd (omega arith)
in_buckets-modify a (b ∷ bs) zero es h = omega arith
in_buckets-modify a (b ∷ bs) (suc i) es h =
    let rest = in_buckets-modify a bs i es (omega arith) in omega arith

-- What is asked of the lists of least recently used entries does not matter.
pub lru_dropped :
    (a : ℕ) (o : Option Entry) (log : List Event)
    → (dropped a (put_old o (forget o log)) ≡ in_option a o + dropped a log)
      × (gained a (put_old o (forget o log)) ≡ gained a log)
unfolding entry_lru_del
lru_dropped a none log = (omega arith, omega arith)
lru_dropped a (some e) log = (omega arith, omega arith)

pub put_old_lem :
    (a : ℕ) (o : Option Entry) (log : List Event)
    → (dropped a (put_old o log) ≡ in_option a o + dropped a log)
      × (gained a (put_old o log) ≡ gained a log)
put_old_lem a none log = (omega arith, omega arith)
put_old_lem a (some e) log = (omega arith, omega arith)

pub list_drop_lem :
    (a : ℕ) (old : ListCache) (log : List Event)
    → (dropped a (list_drop old log) ≡ in_list a old + dropped a log)
      × (gained a (list_drop old log) ≡ gained a log)
unfolding entry_lru_del
list_drop_lem a no_list log = (omega arith, omega arith)
list_drop_lem a stale log = (omega arith, omega arith)
list_drop_lem a (listed e) log = (omega arith, omega arith)

pub list_lru_add_lem :
    (a : ℕ) (new : ListCache) (log : List Event)
    → (dropped a (list_lru_add new log) ≡ dropped a log)
      × (gained a (list_lru_add new log) ≡ gained a log)
unfolding entry_lru_add
list_lru_add_lem a no_list log = (omega arith, omega arith)
list_lru_add_lem a stale log = (omega arith, omega arith)
list_lru_add_lem a (listed e) log = (omega arith, omega arith)

pub drop_chain_lem :
    (a : ℕ) (es : List Entry) (log : List Event)
    → (dropped a (drop_chain es log) ≡ in_chain a es + dropped a log)
      × (gained a (drop_chain es log) ≡ gained a log)
unfolding drop_chain entry_lru_del
drop_chain_lem a [] log = (omega arith, omega arith)
drop_chain_lem a (e ∷ es) log =
    let (p, q) = drop_chain_lem a es (kref_put e.addr ∷ entry_lru_del e log) in
    (omega arith, omega arith)

pub drain_lem :
    (a : ℕ) (bs : List Bucket) (log : List Event)
    → (dropped a (drain bs log).1 ≡ in_buckets a bs + dropped a log)
      × (gained a (drain bs log).1 ≡ gained a log)
      × (in_buckets a (drain bs log).0 ≡ 0)
unfolding drain
drain_lem a [] log = (omega arith, omega arith, omega arith)
drain_lem a (b ∷ bs) log =
    let (p, q) = drop_chain_lem a b.hlist log in
    let (r, s, t) = drain_lem a bs (drop_chain b.hlist log) in (omega arith, s ∙ q, omega arith)

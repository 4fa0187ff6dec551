-- ===== src/Xattr/Chain.antt =====
-- One chain of the hash table: what is found after an entry was taken out.
use mynfs.Base.{
  ℕ, ◌+◌, ◌≤◌, ◌≡◌, refl, sym, ◌∙◌, ◌≢◌, ◌==◌, ==_iff, if◌then◌else◌, Bool, true, false, ◌&&◌,
  Option, none, some, List, [], ◌∷◌, Bool-cases, inl, inr, arith,
}
use mynfs.Xattr.Entry.{Name, same_name, Entry}
use mynfs.Xattr.Table.{name_is, get_entry, hlist_del}

both : (a b : Bool) → (a && b) ≡ true → (a ≡ true) × (b ≡ true)
both true b h = (refl, h)
both false b h = cc

pub same_name-eq : (a b : Name) → same_name a b ≡ true → a ≡ b
same_name-eq [] [] h = refl
same_name-eq [] (y ∷ ys) h = cc
same_name-eq (x ∷ xs) [] h = cc
same_name-eq (x ∷ xs) (y ∷ ys) h =
    let (e, f) = both (x == y) (same_name xs ys) h in
    let u = (==_iff x y).0 e in let t = same_name-eq xs ys f in cc

pub same_name_refl : (a : Name) → same_name a a ≡ true
same_name_refl [] = refl
same_name_refl (x ∷ xs) = let t = same_name_refl xs in ground arith

-- How many entries of a name there are.
unfoldable pub count_name : List Entry → Name → ℕ
count_name [] name = 0
count_name (e ∷ es) name =
    let rest = count_name es name in if name_is e.xattr_name name then rest + 1 else rest

-- A name is only one.
name_is_unique : (o : Option Name) (a b : Name) → name_is o a ≡ true → name_is o b ≡ true → a ≡ b
name_is_unique none a b h k = cc
name_is_unique (some n) a b h k = sym (same_name-eq n a h) ∙ same_name-eq n b k

pub get_entry-none :
    (es : List Entry) (name : Name) → count_name es name ≡ 0 → get_entry es name ≡ none
unfolding count_name get_entry
get_entry-none [] name h = refl
get_entry-none (e ∷ es) name h = ground (arith, get_entry-none es name)

pub get_entry-hlist_del :
    (es : List Entry) (name : Name)
    → count_name es name ≤ 1
    → get_entry (hlist_del es name) name ≡ none
unfolding count_name get_entry hlist_del
get_entry-hlist_del [] name h = refl
get_entry-hlist_del (e ∷ es) name h =
    ground (arith, get_entry-none es name, get_entry-hlist_del es name)

pub get_entry-hlist_del_ne :
    (es : List Entry) (name q : Name) → q ≢ name → get_entry (hlist_del es name) q ≡ get_entry es q
unfolding get_entry hlist_del
get_entry-hlist_del_ne [] name q d = refl
get_entry-hlist_del_ne (e ∷ es) name q d =
    let rest = get_entry-hlist_del_ne es name q d in
    elim (Bool-cases (name_is e.xattr_name name)) [
      | inr n ↦ rw (n, rest) refl
      | inl n ↦ elim (Bool-cases (name_is e.xattr_name q)) [
        | inr m ↦ rw (n, m) refl
        | inl m ↦ absurd (d (name_is_unique e.xattr_name q name m n))
      ]
    ]

pub count_name-hlist_del_le :
    (es : List Entry) (name q : Name) → count_name (hlist_del es name) q ≤ count_name es q
unfolding count_name hlist_del
count_name-hlist_del_le [] name q = omega arith
count_name-hlist_del_le (e ∷ es) name q = ground (arith, count_name-hlist_del_le es name q)

pub count_name-hlist_del :
    (es : List Entry) (name : Name)
    → count_name es name ≤ 1
    → count_name (hlist_del es name) name ≡ 0
unfolding count_name hlist_del
count_name-hlist_del [] name h = refl
count_name-hlist_del (e ∷ es) name h = ground (arith, count_name-hlist_del es name)

-- The entry of the name goes to the front, in place of an older one.
pub get_entry-replace :
    (e : Entry) (es : List Entry) (name q : Name)
    → e.xattr_name ≡ some name
    → get_entry (e ∷ hlist_del es name) q ≡ (if same_name name q then some e else get_entry es q)
unfolding get_entry
get_entry-replace e es name q n = elim (Bool-cases (same_name name q)) [
  | inl m ↦ rw (n, m) refl
  | inr m ↦
      rw (n, m)
        (get_entry-hlist_del_ne es name q
          (λ d. absurd (let t = same_name_refl name in ground arith)))
]

pub count_name-replace :
    (e : Entry) (es : List Entry) (name q : Name)
    → e.xattr_name ≡ some name
    → ((p : Name) → count_name es p ≤ 1)
    → count_name (e ∷ hlist_del es name) q ≤ 1
unfolding count_name
count_name-replace e es name q n h = elim (Bool-cases (same_name name q)) [
  | inl m ↦
      let t = count_name-hlist_del es name (h name) in
      rw (n, m, sym (same_name-eq name q m), t) (omega arith)
  | inr m ↦ let t = count_name-hlist_del_le es name q in let u = h q in rw (n, m) (omega arith)
]

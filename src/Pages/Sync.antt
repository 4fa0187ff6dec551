-- ===== src/Pages/Sync.antt =====
-- What `nfs_page_group_sync_on_bit` answers and leaves behind (mynfs/pagelist.c).
use mynfs.Base.{
  ==_self, ℕ, zero, suc, ◌<◌, ◌≤◌, ◌==◌, ◌≡◌, refl, sym, ap, ◌∙◌, if◌then◌else◌, Bool, true, false,
  ◌&&◌, ◌||◌, some, List, [], ◌∷◌, length, arith, ==_iff,
}
use mynfs.Pages.Request.{
  Store, put_bit, others_set, reset_bits, sync_on_bit, sync_after, with_answer,
}
use mynfs.Pages.Ring.{Chain, Group, Rest, Group-Rest, mem, every, mem-Rest}

not_equal : (m req : ℕ) (ms : List ℕ) → mem req (m ∷ ms) ≡ false → (m == req) ≡ false
not_equal m req ms h = ground arith

if_and : (b c : Bool) → (if b then some c else some false) ≡ some (b && c)
if_and true c = refl
if_and false c = refl

others_set-every :
    (ms : List ℕ) (fuel : ℕ) (s : Store) (bit req tmp : ℕ)
    → Chain s.this_page tmp ms req
    → mem req ms ≡ false
    → length ms < fuel
    → others_set fuel s bit req tmp ≡ some (every (s.flag bit) ms)
unfolding others_set
others_set-every [] zero s bit req tmp c a f = absurd (omega arith)
others_set-every (m ∷ ms) zero s bit req tmp c a f = absurd (omega arith)
others_set-every [] (suc fuel) s bit req tmp c a f = rw ((==_iff tmp req).1 c) refl
others_set-every (m ∷ ms) (suc fuel) s bit req tmp (c, cs) a f = rw c (
    rw (not_equal m req ms a) (
      rw (others_set-every ms fuel s bit req (s.this_page m) cs (ground (arith, a)) (omega arith))
        (if_and (s.flag bit m) (every (s.flag bit) ms))))

-- The bit cleared in each.
abbrev pub clear_bits : ℕ → List ℕ → Store → Store
clear_bits bit [] s = s
clear_bits bit (m ∷ ms) s = clear_bits bit ms (put_bit bit m false s)

reset_bits-clear_bits :
    (ms : List ℕ) (fuel : ℕ) (s : Store) (bit req tmp : ℕ)
    → Chain s.this_page (s.this_page tmp) ms req
    → mem req ms ≡ false
    → length ms < fuel
    → reset_bits fuel s bit req tmp ≡ some (clear_bits bit (tmp ∷ ms) s)
unfolding reset_bits
reset_bits-clear_bits [] zero s bit req tmp c a f = absurd (omega arith)
reset_bits-clear_bits (m ∷ ms) zero s bit req tmp c a f = absurd (omega arith)
reset_bits-clear_bits [] (suc fuel) s bit req tmp c a f =
    rw ((==_iff (s.this_page tmp) req).1 c) refl
reset_bits-clear_bits (m ∷ ms) (suc fuel) s bit req tmp (c, cs) a f = rw c (
    rw (not_equal m req ms a) (
      reset_bits-clear_bits ms fuel (put_bit bit tmp false s) bit req m cs (ground (arith, a))
        (omega arith)))

module _ (bit : ℕ) where
  clear_bits-this_page : (ms : List ℕ) (s : Store) → (clear_bits bit ms s).this_page ≡ s.this_page
  clear_bits-this_page [] s = refl
  clear_bits-this_page (m ∷ ms) s = clear_bits-this_page ms (put_bit bit m false s)

  clear_bits-head : (ms : List ℕ) (s : Store) → (clear_bits bit ms s).head ≡ s.head
  clear_bits-head [] s = refl
  clear_bits-head (m ∷ ms) s = clear_bits-head ms (put_bit bit m false s)

  clear_bits-kref : (ms : List ℕ) (s : Store) → (clear_bits bit ms s).kref ≡ s.kref
  clear_bits-kref [] s = refl
  clear_bits-kref (m ∷ ms) s = clear_bits-kref ms (put_bit bit m false s)

  clear_bits-freed : (ms : List ℕ) (s : Store) → (clear_bits bit ms s).freed ≡ s.freed
  clear_bits-freed [] s = refl
  clear_bits-freed (m ∷ ms) s = clear_bits-freed ms (put_bit bit m false s)

  clear_bits-flag :
      (ms : List ℕ) (s : Store) (n : ℕ)
      → (clear_bits bit ms s).flag bit n ≡ (if mem n ms then false else s.flag bit n)
  clear_bits-flag [] s n = refl
  clear_bits-flag (m ∷ ms) s n =
      clear_bits-flag ms (put_bit bit m false s) n
      ∙ cleared_before (mem n ms) (n == m) (s.flag bit n) (==_self bit)
    where
      cleared_before :
          (b c d : Bool)
          → (bit == bit) ≡ true
          → (if b then false else if bit == bit && c then false else d)
            ≡ (if c || b then false else d)
      cleared_before b c d h = ground arith

-- What a call in a group leaves: the bit is set for the caller, or cleared for all when all have it,
-- and nothing else changes.
pub record Synced (bit r : ℕ) (all : List ℕ) (s s' : Store) : Type 0 where
  pub flags :
      (n : ℕ)
      → s'.flag bit n ≡ (
          if every ((put_bit bit r true s).flag bit) all && mem n all
          then false
          else (put_bit bit r true s).flag bit n)
  pub same_this_page : s'.this_page ≡ s.this_page
  pub same_head : s'.head ≡ s.head
  pub same_kref : s'.kref ≡ s.kref
  pub same_freed : s'.freed ≡ s.freed

module _ (fuel : ℕ) (s : Store) (all : List ℕ) (r bit : ℕ) (rest : Rest s.this_page all r)
    (f : length all ≤ fuel) where
  -- A call whose answer is given.
  sync_on_bit_answer :
      (b : Bool)
      → others_set fuel (put_bit bit r true s) bit r (s.this_page r) ≡ some b
      → b ≡ every ((put_bit bit r true s).flag bit) all
      → (s' : Store) × (sync_on_bit fuel s r bit ≡ some (b, s')) × Synced bit r all s s'
  unfolding sync_on_bit
  sync_on_bit_answer true found same =
      let raised = put_bit bit r true s in
      let s' = clear_bits bit (r ∷ rest.others) raised in
      (
        s',
        ap (sync_after fuel raised bit r) found
            ∙ ap (with_answer true) (
                reset_bits-clear_bits rest.others fuel raised bit r r rest.way rest.apart
                  (omega (arith, rest.short))),
        record {
          flags = λ n.
              clear_bits-flag bit (r ∷ rest.others) raised n
              ∙ if_same (every (raised.flag bit) all) (mem n (r ∷ rest.others)) (mem n all)
                  (raised.flag bit n) (sym same) (mem-Rest s.this_page all r n rest);
          same_this_page = clear_bits-this_page bit (r ∷ rest.others) raised;
          same_head = clear_bits-head bit (r ∷ rest.others) raised;
          same_kref = clear_bits-kref bit (r ∷ rest.others) raised;
          same_freed = clear_bits-freed bit (r ∷ rest.others) raised;
        },
      )
    where
      if_same :
          (e m m' d : Bool)
          → e ≡ true
          → m ≡ m'
          → (if m then false else d) ≡ (if e && m' then false else d)
      if_same e m m' d p q = ground arith
  sync_on_bit_answer false found same =
      let raised = put_bit bit r true s in
      (
        raised,
        ap (sync_after fuel raised bit r) found,
        record {
          flags =
              λ n. if_not (every (raised.flag bit) all) (mem n all) (raised.flag bit n) (sym same);
          same_this_page = refl;
          same_head = refl;
          same_kref = refl;
          same_freed = refl;
        },
      )
    where
      if_not : (e m d : Bool) → e ≡ false → d ≡ (if e && m then false else d)
      if_not e m d p = ground arith

put_bit_self : (bit r : ℕ) (s : Store) → (put_bit bit r true s).flag bit r ≡ true
put_bit_self bit r s = ground (arith, ==_self bit, ==_self r)

-- In a group, one call of `nfs_page_group_sync_on_bit` ends, and answers whether all members have
-- the bit now.
pub sync_on_bit-Synced :
    (fuel : ℕ) (s : Store) (h : ℕ) (subs : List ℕ) (r bit : ℕ)
    → Group s h subs
    → mem r (h ∷ subs) ≡ true
    → length subs < fuel
    → (s' : Store) × (sync_on_bit fuel s r bit
        ≡ some (every ((put_bit bit r true s).flag bit) (h ∷ subs), s'))
      × Synced bit r (h ∷ subs) s s'
unfolding sync_on_bit
sync_on_bit-Synced fuel s h subs r bit g m f =
    let rest = Group-Rest s h subs r g m in
    let raised = put_bit bit r true s in
    let answer = every (raised.flag bit) rest.others in
    let same : answer ≡ every (raised.flag bit) (h ∷ subs) =
      and_true (raised.flag bit r) answer (every (raised.flag bit) (h ∷ subs))
        (put_bit_self bit r s) (rest.same (raised.flag bit)) in
    let found =
      others_set-every rest.others fuel raised bit r (s.this_page r) rest.way rest.apart
        (omega (arith, rest.short)) in
    let result = sync_on_bit_answer fuel s (h ∷ subs) r bit rest (omega arith) answer found same in
    (result.0, result.1 ∙ ap (λ b. some (b, result.0)) same, result.2)
  where
    and_true : (a b c : Bool) → a ≡ true → (a && b) ≡ c → b ≡ c
    and_true a b c p q = ground arith

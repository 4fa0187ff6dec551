-- ===== src/Pages/Barrier.antt =====
-- A bit that is set by the members of a group in turn is a barrier (mynfs/pagelist.c).
use mynfs.Base.{
  ==_self, ℕ, ◌<◌, ◌≡◌, sym, ap, subst, ◌∙◌, Bool, true, false, Option, none, some, List, [], ◌∷◌,
  ◌++◌, length, replicate, arith,
}
use mynfs.Pages.Request.{Store, put_bit, sync_on_bit}
use mynfs.Pages.Ring.{Chain, Group, mem, every, every-at, every-all, every-false, mem-append}
use mynfs.Pages.Sync.{Synced, sync_on_bit-Synced}

-- The calls of some members in turn, and their answers.
abbrev pub then_calls : Bool → Option (List Bool × Store) → Option (List Bool × Store)
then_calls b none = none
then_calls b (some (bs, s)) = some (b ∷ bs, s)

abbrev pub after_call :
    (Store → Option (List Bool × Store)) → Option (Bool × Store) → Option (List Bool × Store)
after_call rest none = none
after_call rest (some (b, s)) = then_calls b (rest s)

unfoldable pub calls : ℕ → ℕ → List ℕ → Store → Option (List Bool × Store)
calls fuel bit [] s = some ([], s)
calls fuel bit (r ∷ rs) s = after_call (calls fuel bit rs) (sync_on_bit fuel s r bit)

-- Of the members, those that have called have the bit.
abbrev Raised : ℕ → List ℕ → List ℕ → Store → Type 0
Raised bit all done s = (n : ℕ) → mem n all ≡ true → s.flag bit n ≡ mem n done

module _ (h : ℕ) (subs : List ℕ) where
  pub Synced-Group :
      (bit r : ℕ) (all : List ℕ) (s s' : Store)
      → Synced bit r all s s'
      → Group s h subs
      → Group s' h subs
  Synced-Group bit r all s s' c g = record {
    ring = subst (λ next. Chain next (next h) subs h) (sym c.same_this_page) g.ring;
    distinct_members = g.distinct_members;
  }

module _ (bit : ℕ) (all : List ℕ) (r : ℕ) (done : List ℕ) (s s' : Store) (i : Raised bit all done s)
    (c : Synced bit r all s s') where
  raised_next : (n : ℕ) → mem n all ≡ true → (put_bit bit r true s).flag bit n ≡ mem n (r ∷ done)
  raised_next n m = ground (arith, i n m, ==_self bit)

  -- A call that is not the last one.
  not_last :
      (last : ℕ)
      → mem last all ≡ true
      → mem last (r ∷ done) ≡ false
      → every ((put_bit bit r true s).flag bit) all ≡ false
  not_last last m d =
      every-false ((put_bit bit r true s).flag bit) last all m (raised_next last m ∙ d)

  not_last_Raised :
      every ((put_bit bit r true s).flag bit) all ≡ false → Raised bit all (r ∷ done) s'
  not_last_Raised e n m = ground (arith, c.flags n, raised_next n m, e)

  -- The last call.
  is_last :
      every (λ n. mem n (r ∷ done)) all ≡ true → every ((put_bit bit r true s).flag bit) all ≡ true
  is_last e =
      every-all ((put_bit bit r true s).flag bit) all
        (λ n m. raised_next n m ∙ every-at (λ n. mem n (r ∷ done)) n all e m)

  is_last_Raised : every ((put_bit bit r true s).flag bit) all ≡ true → Raised bit all [] s'
  is_last_Raised e n m = ground (arith, c.flags n, e, m)

module _ (fuel : ℕ) (bit h : ℕ) (subs : List ℕ) (f : length subs < fuel) (last : ℕ)
    (p : mem last (h ∷ subs) ≡ true) where
  calls_from :
      (rs done : List ℕ) (s : Store)
      → Group s h subs
      → Raised bit (h ∷ subs) done s
      → every (λ r. mem r (h ∷ subs)) rs ≡ true
      → mem last (rs ++ done) ≡ false
      → every (λ n. mem n (last ∷ rs ++ done)) (h ∷ subs) ≡ true
      → (s' : Store) × (calls fuel bit (rs ++ last ∷ []) s
          ≡ some (replicate (length rs) false ++ true ∷ [], s'))
        × Raised bit (h ∷ subs) [] s'
        × Group s' h subs
  unfolding calls
  calls_from [] done s g i m a e =
      let (s', q, c) = sync_on_bit-Synced fuel s h subs last bit g p f in
      let all = is_last bit (h ∷ subs) last done s s' i c e in
      (
        s',
        ap (after_call (calls fuel bit [])) q ∙ ap (λ b. some (b ∷ [], s')) all,
        is_last_Raised bit (h ∷ subs) last done s s' i c all,
        Synced-Group h subs bit last (h ∷ subs) s s' c g,
      )
  calls_from (r ∷ rs) done s g i m a e =
      let (s', q, c) = sync_on_bit-Synced fuel s h subs r bit g (ground (arith, m)) f in
      let some_left =
        not_last bit (h ∷ subs) r done s s' i c last p
          (ground (arith, a, mem-append last rs done)) in
      let (s'', q', i', g') =
        calls_from rs (r ∷ done) s' (Synced-Group h subs bit r (h ∷ subs) s s' c g)
          (not_last_Raised bit (h ∷ subs) r done s s' i c some_left) (ground (arith, m))
          (ground (arith, a, mem-append last rs done, mem-append last rs (r ∷ done)))
          (every-all (λ n. mem n (last ∷ rs ++ r ∷ done)) (h ∷ subs)
            (λ n k. ground (
              arith,
              every-at (λ n. mem n (last ∷ r ∷ rs ++ done)) n (h ∷ subs) e k,
              mem-append n rs done,
              mem-append n rs (r ∷ done),
            ))) in
      (
        s'',
        ap (after_call (calls fuel bit (rs ++ last ∷ []))) q
            ∙ ap (λ b. then_calls b (calls fuel bit (rs ++ last ∷ []) s')) some_left
            ∙ ap (then_calls false) q',
        i',
        g',
      )

  -- Members of a group that all lack a bit set it by `nfs_page_group_sync_on_bit`, in any order, until
  -- all have, `last` being the last one that had not. With fuel for all members, every call before
  -- the one of `last` answers false, that one answers true, and then the bit is clear in all, for the
  -- next time.
  pub calls_barrier :
      (rs : List ℕ) (s : Store)
      → Group s h subs
      → ((n : ℕ) → mem n (h ∷ subs) ≡ true → s.flag bit n ≡ false)
      → every (λ r. mem r (h ∷ subs)) rs ≡ true
      → mem last rs ≡ false
      → every (λ n. mem n (last ∷ rs)) (h ∷ subs) ≡ true
      → (s' : Store) × (calls fuel bit (rs ++ last ∷ []) s
          ≡ some (replicate (length rs) false ++ true ∷ [], s'))
        × ((n : ℕ) → mem n (h ∷ subs) ≡ true → s'.flag bit n ≡ false)
        × Group s' h subs
  calls_barrier rs s g i m a e =
      calls_from rs [] s g i m (ground (arith, a, mem-append last rs [])) (
        every-all (λ n. mem n (last ∷ rs ++ [])) (h ∷ subs)
          (λ n k.
            ground (arith, every-at (λ n. mem n (last ∷ rs)) n (h ∷ subs) e k, mem-append n rs [])))

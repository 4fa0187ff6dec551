-- ===== src/Pages/Released.antt =====
-- One reference to a member of a group released (mynfs/pagelist.c).
use mynfs.Base.{
  ==_self, ℕ, suc, ◌+◌, ◌-◌, ◌<◌, ◌==◌, ◌≡◌, refl, sym, ap, subst, ◌∙◌, true, false, Bool-cases,
  inl, inr, some, List, ◌∷◌, length, arith, ==_iff,
}
use mynfs.Pages.Request.{Store, update, put_bit}
use mynfs.Pages.Group.{kref_drop, put_head, free_if, destroy_synced, release_request}
use mynfs.Pages.Ring.{mem, every, every-at, mem_ne, ==_sym}
use mynfs.Pages.Sync.{sync_on_bit-Synced}
use mynfs.Pages.Barrier.{Synced-Group}
use mynfs.Pages.Held.{
  Held, Full, Released, in_use, in_use-update_in, in_use-update_out, in_use-zero, release_kept,
  release_last, same_ring, head-Released,
}

module _ (teardown h : ℕ) (subs : List ℕ) (fuel : ℕ) (f : length subs < fuel) where
  module _ (own : ℕ → ℕ) (s : Store) (r k : ℕ) (i : Held teardown h subs own s)
      (o : own r ≡ suc k) where
    head_apart : mem r subs ≡ true → (h == r) ≡ false
    head_apart m =
        ground (arith, ==_sym h r, mem_ne r h subs m (ground (arith, i.group.distinct_members)))

    -- The users of another member change nothing for the head.
    sub_kept :
        mem r subs ≡ true → (k == 0) ≡ false → Held teardown h subs (update own r k) (kref_drop r s)
    sub_kept m p = record {
      group = same_ring teardown h subs fuel f s r i.group;
      heads = i.heads;
      sub_refs = λ n q. ground (arith, i.sub_refs n q, i.sub_refs r m, o);
      head_refs = ground (
        arith,
        head_apart m,
        i.head_refs,
        in_use-update_in own r k subs m (ground (arith, i.group.distinct_members)) o,
        p,
      );
      torn = λ n q. elim (Bool-cases (n == r)) [
        | inl same ↦ ground (arith, i.torn n q, ap own ((==_iff n r).0 same), o, p, same)
        | inr other ↦ ground (arith, i.torn n q, other)
      ];
      head_flag = i.head_flag;
    }

    -- The last user of another member: it waits for the head, which loses a reference.
    sub_torn :
        mem r subs ≡ true
        → k ≡ 0
        → (s' : Store) × (destroy_synced teardown fuel (kref_drop r s) r ≡ some s')
          × Full teardown h subs (update own r k) s'
          × (s'.freed ≡ s.freed)
    unfolding destroy_synced
    sub_torn m z =
        let d = kref_drop r s in
        let raised = put_bit teardown r true d in
        let ring = same_ring teardown h subs fuel f s r i.group in
        let (s2, q, c) = sync_on_bit-Synced fuel d h subs r teardown ring (ground (arith, m)) f in
        let missing : every (raised.flag teardown) (h ∷ subs) ≡ false =
          ground (arith, head_apart m, i.head_flag) in
        let kref_of : (n : ℕ) → s2.kref n ≡ d.kref n = λ n. ap (λ g. g n) c.same_kref in
        (
          s2,
          ap (free_if fuel r) q ∙ ap (λ b. free_if fuel r (some (b, s2))) missing,
          record {
            group = Synced-Group h subs teardown r (h ∷ subs) d s2 c ring;
            heads = λ n p. ap (λ g. g n) c.same_head ∙ i.heads n p;
            sub_refs = λ n p. ground (arith, kref_of n, i.sub_refs n p, i.sub_refs r m, o);
            head_refs = ground (
              arith,
              kref_of h,
              head_apart m,
              i.head_refs,
              z,
              in_use-update_in own r k subs m (ground (arith, i.group.distinct_members)) o,
            );
            torn = λ n p. ground (arith, c.flags n, missing, i.torn n p, ==_self teardown, z);
            head_flag = ground (arith, c.flags h, missing, head_apart m, i.head_flag);
          },
          c.same_freed,
        )

    -- While the member has users left, the group is held.
    sub_in_use :
        mem r subs ≡ true
        → (k == 0) ≡ false
        → (x : ℕ) × (update own r k h + in_use (update own r k) subs ≡ suc x)
    sub_in_use m p =
        let own' = update own r k in
        elim (Bool-cases (in_use own' subs == 0)) [
          | inl none_left ↦ absurd (
              ground (
                arith,
                p,
                ==_self r,
                every-at (λ n. own' n == 0) r subs (in_use-zero own' subs ∙ none_left) m,
              ))
          | inr some_left ↦ (own' h + in_use own' subs - 1, ground (arith, some_left))
        ]

    sub-Released :
        (depth : ℕ)
        → mem r subs ≡ true
        → (s' : Store) × (release_request teardown fuel (suc (suc depth)) r s ≡ some s')
          × Released teardown h subs
              (update own r k h + in_use (update own r k) subs)
              (update own r k)
              s.freed
              s'
    sub-Released depth m = elim (Bool-cases (k == 0)) [
      | inl z ↦
          let own' = update own r k in
          let (s2, q, full, freed) = sub_torn m ((==_iff k 0).0 z) in
          let (s3, q', outcome) =
            head-Released teardown h subs fuel f own' s2 depth (own' h + in_use own' subs) full
              refl in
          let other_head : s.head r ≡ h = i.heads r (ground (arith, m)) in
          (
            s3,
            release_last teardown h subs fuel f s r (suc depth)
                  (ground (arith, i.sub_refs r m, o, z))
                ∙ ap
                    (λ n.
                      put_head (release_request teardown fuel (suc depth) n) (n == r)
                        (destroy_synced teardown fuel (kref_drop r s) r))
                    other_head
                ∙ ap (put_head (release_request teardown fuel (suc depth) h) (h == r)) q
                ∙ ap (λ b. put_head (release_request teardown fuel (suc depth) h) b (some s2))
                    (head_apart m)
                ∙ q',
            subst (λ before. Released teardown h subs (own' h + in_use own' subs) own' before s3)
                freed outcome,
          )
      | inr p ↦
          let own' = update own r k in
          let (x, e) = sub_in_use m p in
          (
            kref_drop r s,
            release_kept teardown h subs fuel f s r (k - 1) (suc depth)
                (ground (arith, i.sub_refs r m, o, p)),
            subst (λ y. Released teardown h subs y own' s.freed (kref_drop r s)) (sym e)
                (sub_kept m p, refl),
          )
    ]

    -- The head loses one of its own.
    head_given_up : r ≡ h → Full teardown h subs (update own h k) s
    head_given_up e =
        let own_h : own h ≡ suc k = ap own (sym e) ∙ o in
        let out : mem h subs ≡ false = ground (arith, i.group.distinct_members) in
        record {
          group = i.group;
          heads = i.heads;
          sub_refs = λ n p. ground (arith, i.sub_refs n p, mem_ne n h subs p out);
          head_refs =
              ground (arith, ==_self h, i.head_refs, own_h, in_use-update_out own h k subs out);
          torn = λ n p. ground (arith, i.torn n p, mem_ne n h subs p out);
          head_flag = i.head_flag;
        }

  -- A user of any member of a group that is held gives back a reference, by `nfs_release_request`. With
  -- fuel for all members the call ends. If a member has users left, the group is held as before, with one reference fewer, and
  -- nothing is freed. If that was the last user of all, each member of the group is freed, once.
  pub release_request-Released :
      (own : ℕ → ℕ) (s : Store) (r k depth : ℕ)
      → Held teardown h subs own s
      → mem r (h ∷ subs) ≡ true
      → own r ≡ suc k
      → (s' : Store) × (release_request teardown fuel (suc (suc depth)) r s ≡ some s')
        × Released teardown h subs
            (update own r k h + in_use (update own r k) subs)
            (update own r k)
            s.freed
            s'
  release_request-Released own s r k depth i m o = elim (Bool-cases (r == h)) [
    | inl same ↦
        let e = (==_iff r h).0 same in
        subst
          (λ n.
            (s' : Store) × (release_request teardown fuel (suc (suc depth)) n s ≡ some s')
            × Released teardown h subs (update own n k h + in_use (update own n k) subs)
                (update own n k) s.freed s')
          (sym e)
          (head-Released teardown h subs fuel f (update own h k) s (suc depth)
            (update own h k h + in_use (update own h k) subs) (head_given_up own s r k i o e) refl)
    | inr other ↦ sub-Released own s r k i o depth (ground (arith, m, other))
  ]

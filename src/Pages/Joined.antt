-- ===== src/Pages/Joined.antt =====
-- A request that joins a group (mynfs/pagelist.c).
use mynfs.Base.{
  ==_self, ℕ, suc, ◌+◌, ◌==◌, ◌≡◌, refl, sym, ap, subst, if◌then◌else◌, Bool, true, false,
  Bool-cases, inl, inr, none, some, List, [], ◌∷◌, ◌++◌, arith, ==_iff,
}
use mynfs.Pages.Request.{Store, update, put_bit}
use mynfs.Pages.Group.{kref_get, group_ref, group_init}
use mynfs.Pages.Ring.{Chain, mem, mem-append, mem_ne, ==_sym}
use mynfs.Pages.Held.{Held, in_use, in_use-update_out}
use mynfs.Pages.Extended.{extended, ring_extended, distinct-append_new}

in_use-append_new :
    (own : ℕ → ℕ) (ms : List ℕ) (n : ℕ)
    → in_use own (ms ++ n ∷ []) ≡ in_use own ms + (if own n == 0 then 0 else 1)
in_use-append_new own [] n = ground arith
in_use-append_new own (m ∷ ms) n = ground (arith, in_use-append_new own ms n)

module _ (teardown h : ℕ) (subs : List ℕ) (own : ℕ → ℕ) (s : Store) (prev req : ℕ)
    (i : Held teardown h subs own s) (m : mem prev (h ∷ subs) ≡ true) (e : s.this_page prev ≡ h)
    (a : mem req (h ∷ subs) ≡ false) where
  in_subs : (n : ℕ) → mem n (subs ++ req ∷ []) ≡ true → (n == req) ≡ false → mem n subs ≡ true
  in_subs n p other = ground (arith, p, other, mem-append n subs (req ∷ []))

  -- A store in which `req` is the last of the group, with `c` users.
  joined-Held :
      (c : ℕ) (s' : Store)
      → s'.this_page ≡ extended s.this_page prev req
      → ((n : ℕ) → s'.head n ≡ update s.head req h n)
      → ((n : ℕ)
          → s'.kref n ≡ (if n == req then suc c else if n == h then suc (s.kref h) else s.kref n))
      → ((n : ℕ) → s'.flag teardown n ≡ s.flag teardown n)
      → s.flag teardown req ≡ false
      → Held teardown h (subs ++ req ∷ []) (update own req (suc c)) s'
  joined-Held c s' tp hd kr fl z = record {
    group = record {
      ring =
          subst (λ next. Chain next (next h) (subs ++ req ∷ []) h) (sym tp)
            (ring_extended s.this_page h req subs prev i.group.ring i.group.distinct_members m e a);
      distinct_members = distinct-append_new (h ∷ subs) req i.group.distinct_members a;
    };
    heads = λ n p. ground (arith, hd n, i.heads n, p, mem-append n subs (req ∷ []));
    sub_refs = λ n p. elim (Bool-cases (n == req)) [
      | inl same ↦ ground (arith, kr n, same)
      | inr other ↦
          let q = in_subs n p other in
          ground (
            arith,
            kr n,
            other,
            mem_ne n h subs q (ground (arith, i.group.distinct_members)),
            i.sub_refs n q,
          )
    ];
    head_refs = ground (
      arith,
      kr h,
      ==_sym h req,
      a,
      ==_self h,
      i.head_refs,
      ==_self req,
      in_use-append_new (update own req (suc c)) subs req,
      in_use-update_out own req (suc c) subs (ground (arith, a)),
    );
    torn = λ n p. elim (Bool-cases (n == req)) [
      | inl same ↦ ground (arith, fl n, same, ap (s.flag teardown) ((==_iff n req).0 same), z)
      | inr other ↦ ground (arith, fl n, other, i.torn n (in_subs n p other))
    ];
    head_flag = ground (arith, fl h, i.head_flag);
  }

  -- The group before the reference of the write path.
  abbrev linked : ℕ → Store
  linked head =
      kref_get head
        (record s { head = update s.head req head; this_page = extended s.this_page prev req })

  linked_kref :
      (n : ℕ)
      → s.kref req ≡ 1
      → (linked h).kref n ≡ (if n == req then 1 else if n == h then suc (s.kref h) else s.kref n)
  linked_kref n k = elim (Bool-cases (n == req)) [
    | inl same ↦ ground (
      arith,
      same,
      a,
      k,
      ap s.kref ((==_iff n req).0 same),
      ap (λ t. t == h) ((==_iff n req).0 same),
    )
    | inr other ↦ ground (arith, other)
  ]

  with_ref :
      (inode_ref : ℕ) (b : Bool)
      → (inode_ref == teardown) ≡ false
      → s.kref req ≡ 1
      → s.flag teardown req ≡ false
      → let s' =
          if b
          then kref_get req
              (put_bit inode_ref req true (record (linked h) { nrequests = s.nrequests + 1 }))
          else linked h in
        Held teardown h (subs ++ req ∷ []) (update own req (if b then 2 else 1)) s'
        × (s'.nrequests ≡ (if b then s.nrequests + 1 else s.nrequests))
        × (s'.flag inode_ref req ≡ (if b then true else s.flag inode_ref req))
        × (s'.freed ≡ s.freed)
  with_ref inode_ref true ne k z =
      let s' =
        kref_get req
          (put_bit inode_ref req true (record (linked h) { nrequests = s.nrequests + 1 })) in
      (
        joined-Held 1 s' refl (λ n. refl)
            (λ n. ground (arith, linked_kref n k, linked_kref req k, ==_self req))
            (λ n. ground (arith, ne, ==_sym teardown inode_ref)) z,
        refl,
        ground (arith, ==_self inode_ref, ==_self req),
        refl,
      )
  with_ref inode_ref false ne k z = (
    joined-Held 0 (linked h) refl (λ n. refl) (λ n. linked_kref n k) (λ n. refl) z,
    refl,
    refl,
    refl,
  )

  -- A new request, with the one reference of its creator, with PG_TEARDOWN clear, joins a group that
  -- is held, after its last member. Then that group is held with it. If the head has PG_INODE_REF, the
  -- reference of the write path, the request has it too, with a reference of its own, and the inode
  -- counts a request more; if not, neither changes.
  pub group_init-Held :
      (inode_ref : ℕ)
      → (inode_ref == teardown) ≡ false
      → s.kref req ≡ 1
      → s.flag teardown req ≡ false
      → let s' = group_init inode_ref s req (some prev) in
        Held teardown h (subs ++ req ∷ []) (update own req (if s.flag inode_ref h then 2 else 1)) s'
        × (s'.nrequests ≡ (if s.flag inode_ref h then s.nrequests + 1 else s.nrequests))
        × (s'.flag inode_ref req ≡ (if s.flag inode_ref h then true else s.flag inode_ref req))
        × (s'.freed ≡ s.freed)
  unfolding group_init
  group_init-Held inode_ref ne k z =
      subst
        (λ head.
          let s' = group_ref inode_ref req head (linked head) in
          Held teardown h (subs ++ req ∷ []) (update own req (if s.flag inode_ref h then 2 else 1))
            s'
          × (s'.nrequests ≡ (if s.flag inode_ref h then s.nrequests + 1 else s.nrequests))
          × (s'.flag inode_ref req ≡ (if s.flag inode_ref h then true else s.flag inode_ref req))
          × (s'.freed ≡ s.freed))
        (sym (i.heads prev m)) (with_ref inode_ref (s.flag inode_ref h) ne k z)

-- A request alone is a group.
pub group_init-alone :
    (teardown inode_ref req : ℕ) (s : Store)
    → s.kref req ≡ 1
    → s.flag teardown req ≡ false
    → Held teardown req [] (λ n. 1) (group_init inode_ref s req none)
unfolding group_init
group_init-alone teardown inode_ref req s k z = record {
  group = record { ring = ground (arith, ==_self req); distinct_members = refl };
  heads = λ n p. ground (arith, p);
  sub_refs = λ n p. cc;
  head_refs = k;
  torn = λ n p. cc;
  head_flag = z;
}

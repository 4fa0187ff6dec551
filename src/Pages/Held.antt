-- ===== src/Pages/Held.antt =====
-- References to the members of a group, and its end with the last of them (mynfs/pagelist.c).
use mynfs.Base.{
  ==_self, ℕ, zero, suc, ◌+◌, ◌-◌, ◌<◌, ◌==◌, ◌≡◌, refl, sym, ap, subst, ◌∙◌, if◌then◌else◌, true,
  false, Bool-cases, inl, inr, some, List, [], ◌∷◌, length, arith, ==_iff,
}
use mynfs.Pages.Request.{Store, update, put_bit}
use mynfs.Pages.Group.{kref_drop, put_head, free_if, destroy_synced, release_request}
use mynfs.Pages.Ring.{Group, mem, distinct, every, every-at, every-all, mem_ne, ==_sym}
use mynfs.Pages.Sync.{sync_on_bit-Synced}
use mynfs.Pages.Barrier.{Synced-Group}
use mynfs.Pages.Freed.{pile, free_ring-freed}

-- The members that are still used by others.
abbrev pub in_use : (ℕ → ℕ) → List ℕ → ℕ
in_use own [] = 0
in_use own (m ∷ ms) = if own m == 0 then in_use own ms else suc (in_use own ms)

-- A group in which each member has the references `own` of its users, the head one more for each
-- other member that is still used, and the others that are not used wait for the head.
pub record Held (teardown h : ℕ) (subs : List ℕ) (own : ℕ → ℕ) (s : Store) : Type 0 where
  pub group : Group s h subs
  pub heads : (n : ℕ) → mem n (h ∷ subs) ≡ true → s.head n ≡ h
  pub sub_refs : (n : ℕ) → mem n subs ≡ true → s.kref n ≡ own n
  pub head_refs : s.kref h ≡ own h + in_use own subs
  pub torn : (n : ℕ) → mem n subs ≡ true → s.flag teardown n ≡ (own n == 0)
  pub head_flag : s.flag teardown h ≡ false

pub in_use-update_out :
    (own : ℕ → ℕ) (r k : ℕ) (ms : List ℕ)
    → mem r ms ≡ false
    → in_use (update own r k) ms ≡ in_use own ms
in_use-update_out own r k [] a = refl
in_use-update_out own r k (m ∷ ms) a =
    ground (arith, a, ==_sym m r, in_use-update_out own r k ms (ground (arith, a)))

-- One reference fewer to a member.
pub in_use-update_in :
    (own : ℕ → ℕ) (r k : ℕ) (ms : List ℕ)
    → mem r ms ≡ true
    → distinct ms ≡ true
    → own r ≡ suc k
    → in_use own ms
      ≡ (if k == 0 then suc (in_use (update own r k) ms) else in_use (update own r k) ms)
in_use-update_in own r k [] a d o = cc
in_use-update_in own r k (m ∷ ms) a d o = elim (Bool-cases (r == m)) [
  | inl same ↦
      let e = (==_iff r m).0 same in
      let o' : own m ≡ suc k = ap own (sym e) ∙ o in
      let out : mem r ms ≡ false = subst (λ t. mem t ms ≡ false) (sym e) (ground (arith, d)) in
      ground (arith, o', ==_sym m r, same, in_use-update_out own r k ms out)
  | inr other ↦ ground (
    arith,
    ==_sym m r,
    other,
    a,
    d,
    in_use-update_in own r k ms (ground (arith, a, other)) (ground (arith, d)) o,
  )
]

pub in_use-zero : (own : ℕ → ℕ) (ms : List ℕ) → every (λ n. own n == 0) ms ≡ (in_use own ms == 0)
in_use-zero own [] = refl
in_use-zero own (m ∷ ms) = ground (arith, in_use-zero own ms)

module _ (teardown h : ℕ) (subs : List ℕ) where
  -- The head just before one of its references goes.
  pub record Full (own : ℕ → ℕ) (s : Store) : Type 0 where
    pub group : Group s h subs
    pub heads : (n : ℕ) → mem n (h ∷ subs) ≡ true → s.head n ≡ h
    pub sub_refs : (n : ℕ) → mem n subs ≡ true → s.kref n ≡ own n
    pub head_refs : s.kref h ≡ suc (own h + in_use own subs)
    pub torn : (n : ℕ) → mem n subs ≡ true → s.flag teardown n ≡ (own n == 0)
    pub head_flag : s.flag teardown h ≡ false

  -- After a release: freed as a whole if nobody uses a member any more, and else still held.
  abbrev pub Released : ℕ → (ℕ → ℕ) → List ℕ → Store → Type 0
  Released zero own before s = s.freed ≡ pile (h ∷ subs) before
  Released (suc n) own before s = Held teardown h subs own s × (s.freed ≡ before)

module _ (teardown h : ℕ) (subs : List ℕ) (fuel : ℕ) (f : length subs < fuel) where
  drop_kref : (s : Store) (r : ℕ) (k : ℕ) → s.kref r ≡ suc k → (kref_drop r s).kref r ≡ k
  drop_kref s r k e = ground (arith, e, ==_self r)

  pub release_kept :
      (s : Store) (r k depth : ℕ)
      → s.kref r ≡ suc (suc k)
      → release_request teardown fuel (suc depth) r s ≡ some (kref_drop r s)
  unfolding release_request
  release_kept s r k depth e =
      let left : (s.kref r - 1 == 0) ≡ false = ground (arith, e) in rw (left, release_request) refl

  pub release_last :
      (s : Store) (r depth : ℕ)
      → s.kref r ≡ 1
      → release_request teardown fuel (suc depth) r s
        ≡ put_head
            (release_request teardown fuel depth (s.head r))
            (s.head r == r)
            (destroy_synced teardown fuel (kref_drop r s) r)
  unfolding release_request
  release_last s r depth e =
      let none_left : (s.kref r - 1 == 0) ≡ true = ground (arith, e) in
      rw (none_left, release_request) refl

  pub same_ring : (s : Store) (r : ℕ) → Group s h subs → Group (kref_drop r s) h subs
  same_ring s r g = record { ring = g.ring; distinct_members = g.distinct_members }

  head_kept :
      (own : ℕ → ℕ) (s : Store) (x depth : ℕ)
      → Full teardown h subs own s
      → own h + in_use own subs ≡ suc x
      → (s' : Store) × (release_request teardown fuel (suc depth) h s ≡ some s')
        × Held teardown h subs own s'
        × (s'.freed ≡ s.freed)
  head_kept own s x depth i e = (
    kref_drop h s,
    release_kept s h x depth (omega (arith, i.head_refs, e)),
    record {
      group = same_ring s h i.group;
      heads = i.heads;
      sub_refs = λ n m.
          ground
            (arith, i.sub_refs n m, mem_ne n h subs m (ground (arith, i.group.distinct_members)));
      head_refs = drop_kref s h (own h + in_use own subs) i.head_refs;
      torn = i.torn;
      head_flag = i.head_flag;
    },
    refl,
  )

  head_freed :
      (own : ℕ → ℕ) (s : Store) (depth : ℕ)
      → Full teardown h subs own s
      → own h + in_use own subs ≡ 0
      → (s' : Store) × (release_request teardown fuel (suc depth) h s ≡ some s')
        × (s'.freed ≡ pile (h ∷ subs) s.freed)
  unfolding destroy_synced
  head_freed own s depth i e =
      let d = kref_drop h s in
      let raised = put_bit teardown h true d in
      let (s2, q, c) =
        sync_on_bit-Synced fuel d h subs h teardown (same_ring s h i.group)
          (ground (arith, ==_self h)) f in
      let idle : every (λ n. own n == 0) subs ≡ true = ground (arith, in_use-zero own subs, e) in
      let all : every (raised.flag teardown) (h ∷ subs) ≡ true = ground (
        arith,
        ==_self h,
        ==_self teardown,
        every-all (raised.flag teardown) subs
            (λ n m. ground (arith, i.torn n m, every-at (λ n. own n == 0) n subs idle m)),
      ) in
      let (s3, q3, r) =
        free_ring-freed fuel s2 h subs
          (Synced-Group h subs teardown h (h ∷ subs) d s2 c (same_ring s h i.group)) f in
      let own_head : (s.head h == h) ≡ true =
        (==_iff (s.head h) h).1 (i.heads h (ground (arith, ==_self h))) in
      let destroyed : destroy_synced teardown fuel d h ≡ some s3 =
        ap (free_if fuel h) q ∙ ap (λ b. free_if fuel h (some (b, s2))) all ∙ q3 in
      (
        s3,
        release_last s h depth (omega (arith, i.head_refs, e))
            ∙ ap (put_head (release_request teardown fuel depth (s.head h)) (s.head h == h))
                destroyed
            ∙ ap (λ b. put_head (release_request teardown fuel depth (s.head h)) b (some s3))
                own_head,
        r ∙ ap (pile (h ∷ subs)) c.same_freed,
      )

  pub head-Released :
      (own : ℕ → ℕ) (s : Store) (depth x : ℕ)
      → Full teardown h subs own s
      → own h + in_use own subs ≡ x
      → (s' : Store) × (release_request teardown fuel (suc depth) h s ≡ some s')
        × Released teardown h subs x own s.freed s'
  head-Released own s depth zero i e = head_freed own s depth i e
  head-Released own s depth (suc x) i e =
      let (s', q, held, same) = head_kept own s x depth i e in (s', q, (held, same))

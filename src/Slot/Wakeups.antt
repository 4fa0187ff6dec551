-- ===== src/Slot/Wakeups.antt =====
-- Waking: the loop ends, keeps the invariant, and leaves no slot idle that a waiter could have.
use mynfs.Base.{
  ℕ, zero, suc, ◌≤◌, ◌<◌, ◌≡◌, refl, ◌≢◌, All, Bool, true, false, ◌⊎◌, inl, inr, Option, none, some,
  List, [], ◌∷◌, length, length-append, length-modify, ap, ◌∙◌, Option-cases, Bool-cases, ltb,
  arith,
}
use mynfs.Slot.Kernel.{BitSearch, WaitQueue, Task}
use mynfs.Slot.Invariant.{IsWf, Numbered-modify, free_slot-IsWf, free_slot-freed, freed}
use mynfs.Slot.Alloc.{
  alloc_slot-IsWf, IsStarved, AllocPost, alloc_slot-AllocPost, AllocKeeps, alloc_slot-AllocKeeps,
  alloc_slot-only,
}
use mynfs.Slot.Table.{
  SlotTable, Found, ok, err, busy, no_mem, too_big, no_fuel, alloc_slot, slot_nr_at,
}
use mynfs.Slot.Wake.{
  Grant, accepts, stamp_slot, assign_first, offer_found, give_back, wake_and_assign_slot,
  try_wake_next, next_round, wake_loop, wake_slot_table,
}

pub stamp_slot-IsWf :
    (tbl : SlotTable) (p : ℕ) (q : List Task) → IsWf tbl → IsWf (stamp_slot tbl p q)
unfolding stamp_slot
stamp_slot-IsWf tbl p q v = record {
  listed = record {
    numbered = Numbered-modify 0 tbl.slots p _ (λ s. refl) v.listed.numbered;
    counted = omega (arith, v.listed.counted, length-modify tbl.slots p);
  };
  capped = v.capped;
  sized = v.sized;
  located = v.located;
  highest = v.highest;
}

module _ (B : BitSearch) (W : WaitQueue) (mem : ℕ → Bool) (now : ℕ) where
  abbrev step : SlotTable → SlotTable × Option Grant
  step = try_wake_next B W mem now

  -- The two ways in which an offer ends.
  assign_first_cases :
      (tbl : SlotTable) (p : ℕ)
      → ((W.rpc_wake_up_first tbl.waitq (accepts tbl) ≡ none)
          × (assign_first W now tbl p ≡ (tbl, none)))
        ⊎ ((t : Task) × (q : List Task) × (g : Grant) × (W.rpc_wake_up_first tbl.waitq (accepts tbl)
              ≡ some (t, q))
            × (assign_first W now tbl p ≡ (stamp_slot tbl p q, some g))
            × (g.task ≡ t)
            × (g.slot ≡ p))
  unfolding assign_first
  assign_first_cases tbl p = elim (Option-cases (W.rpc_wake_up_first tbl.waitq (accepts tbl))) [
    | inl e ↦ inl (e, rw (e, assign_first))
    | inr ((t, q), e) ↦ inr (
      t,
      q,
      record { task = t; slot = p; sr_timestamp = now; sr_status_flags = 0; sr_status = 1 },
      e,
      rw (e, assign_first),
      refl,
      refl,
    )
  ]

  -- An offer touches neither the invariant nor the bitmap.
  assign_first-IsWf :
      (tbl : SlotTable) (p : ℕ)
      → IsWf tbl
      → IsWf (assign_first W now tbl p).0
        × ((assign_first W now tbl p).0.used_slots ≡ tbl.used_slots)
  unfolding stamp_slot
  assign_first-IsWf tbl p v = elim (assign_first_cases tbl p) [
    | inl (_, c) ↦ rw c (v, refl)
    | inr (t, q, g, _, c, _, _) ↦ rw c (stamp_slot-IsWf tbl p q v, refl)
  ]

  pub wake_and_assign_slot-IsWf :
      (tbl : SlotTable) (p : ℕ)
      → IsWf tbl
      → IsWf (wake_and_assign_slot W now tbl p).0
        × ((wake_and_assign_slot W now tbl p).0.used_slots ≡ tbl.used_slots)
  unfolding wake_and_assign_slot
  wake_and_assign_slot-IsWf tbl p v =
      elim (Bool-cases (ltb tbl.max_slotid (slot_nr_at tbl.slots p))) [
        | inl e ↦ rw e (v, refl)
        | inr e ↦ rw e (assign_first-IsWf tbl p v)
      ]

  -- No slot is left idle: all within the limit are in use; or all in the list are, and the next one
  -- could not be allocated; or the queue holds nobody to serve.
  abbrev pub IsSettled : SlotTable → Type 0
  IsSettled t =
      ((j : ℕ) → j ≤ t.max_slotid → t.used_slots j ≡ true)
      ⊎ IsStarved mem t
      ⊎ (W.rpc_wake_up_first t.waitq (accepts t) ≡ none)

  -- What one round leaves alone, and what it does to the slots in use.
  pub record Keeps (tbl t : SlotTable) : Type 0 where
    pub draining : t.draining ≡ tbl.draining
    pub max_slotid : t.max_slotid ≡ tbl.max_slotid
    pub target : t.target_highest_slotid ≡ tbl.target_highest_slotid
    pub server : t.server_highest_slotid ≡ tbl.server_highest_slotid
    pub used : (j : ℕ) → tbl.used_slots j ≡ true → t.used_slots j ≡ true

  abbrev After : SlotTable → SlotTable × Option Grant → Type 0
  After tbl (t, none) =
      IsWf t
      × Keeps tbl t
      × IsSettled t
      × ((j : ℕ) → t.used_slots j ≡ true → tbl.used_slots j ≡ true)
  After tbl (t, some g) =
      IsWf t
      × Keeps tbl t
      × (length tbl.waitq ≡ suc (length t.waitq))
      × (accepts tbl g.task ≡ true)
      × (tbl.used_slots g.slot ≡ false)
      × (t.used_slots g.slot ≡ true)
      × ((j : ℕ) → t.used_slots j ≡ true → tbl.used_slots j ≡ false → g.slot ≡ j)

  woken_shorter :
      (q : List Task) (func : Task → Bool) (t : Task) (r : List Task)
      → W.rpc_wake_up_first q func ≡ some (t, r)
      → length q ≡ suc (length r)
  woken_shorter q func t r h =
      let (xs, ys, e, e') = W.woken_leaves q func t r h in
      rw (e, e') (omega (arith, length-append xs (t ∷ ys), length-append xs ys))

  offer-After :
      (tbl t : SlotTable) (p : ℕ)
      → IsWf t
      → AllocKeeps tbl t
      → t.used_slots p ≡ true
      → tbl.used_slots p ≡ false
      → ((j : ℕ) → t.used_slots j ≡ true → tbl.used_slots j ≡ false → p ≡ j)
      → After tbl (give_back B W mem now (assign_first W now t p) p)
  unfolding freed stamp_slot
  offer-After tbl t p v k u u' only = elim (assign_first_cases t p) [
    | inl (e, c) ↦ rw c (
      free_slot-IsWf B t p v u,
      rw (free_slot-freed B t p v.listed (v.located p u)) (record {
        draining = k.draining;
        max_slotid = k.max_slotid;
        target = k.target;
        server = k.server;
        used = λ j h. ground (arith, k.used j h);
      }),
      rw (free_slot-freed B t p v.listed (v.located p u)) (inr (inr e)),
      rw (free_slot-freed B t p v.listed (v.located p u)) (λ j h. ground (arith, only j)),
    )
    | inr (w, q, g, e, c, gt, gs) ↦
        rw (c, gt, gs)
          (
            stamp_slot-IsWf t p q v,
            record {
              draining = k.draining;
              max_slotid = k.max_slotid;
              target = k.target;
              server = k.server;
              used = k.used;
            },
            rw (← k.waitq) (woken_shorter t.waitq (accepts t) w q e),
            ground (arith, k.draining, W.woken_accepted t.waitq (accepts t) w q e),
            u',
            u,
            only,
          )
  ]

  offer_found-After :
      (tbl t : SlotTable) (f : Found)
      → IsWf t
      → AllocKeeps tbl t
      → AllocPost mem tbl t f
      → ((j : ℕ) → t.used_slots j ≡ true → tbl.used_slots j ≡ false → f ≡ ok j)
      → After tbl (offer_found B W mem now (t, f))
  offer_found-After tbl t (ok p) v k post only =
      offer-After tbl t p v k post.0 post.1 (λ j h c. let e = only j h c in ground arith)
  offer_found-After tbl t (err busy) v k post only = (
    v,
    record {
      draining = k.draining;
      max_slotid = k.max_slotid;
      target = k.target;
      server = k.server;
      used = k.used;
    },
    inl post,
    λ j h. ground (arith, only j h),
  )
  offer_found-After tbl t (err no_mem) v k post only = (
    v,
    record {
      draining = k.draining;
      max_slotid = k.max_slotid;
      target = k.target;
      server = k.server;
      used = k.used;
    },
    inr (inl post),
    λ j h. ground (arith, only j h),
  )
  offer_found-After tbl t (err too_big) v k post only = absurd post
  offer_found-After tbl t no_fuel v k post only = absurd post

  try_wake_next-After : (tbl : SlotTable) → IsWf tbl → After tbl (step tbl)
  unfolding try_wake_next
  try_wake_next-After tbl v =
      offer_found-After tbl (alloc_slot B mem tbl).0 (alloc_slot B mem tbl).1
        (alloc_slot-IsWf B mem tbl v) (alloc_slot-AllocKeeps B mem tbl v)
        (alloc_slot-AllocPost B mem tbl v) (alloc_slot-only B mem tbl v)

  -- Each grant took a slot that was free, gave it to a task that the table accepts, and to no other.
  abbrev pub GrantsOf : SlotTable → List Grant → SlotTable → Type 0
  GrantsOf tbl [] t = Unit {0}
  GrantsOf tbl (g ∷ gs) t =
      (tbl.used_slots g.slot ≡ false)
      × (t.used_slots g.slot ≡ true)
      × (accepts tbl g.task ≡ true)
      × All (λ g'. g'.slot ≢ g.slot) gs
      × GrantsOf tbl gs t

  -- Whether the slot of number `j` was granted.
  abbrev pub IsGranted : ℕ → List Grant → Type 0
  IsGranted j [] = ⊥
  IsGranted j (g ∷ gs) = (g.slot ≡ j) ⊎ IsGranted j gs

  -- No other slot is taken.
  abbrev pub TakesOnly : SlotTable → List Grant → SlotTable → Type 0
  TakesOnly tbl gs t = (j : ℕ) → t.used_slots j ≡ true → tbl.used_slots j ≡ false → IsGranted j gs

  abbrev LoopAfter : SlotTable → SlotTable × List Grant × Bool → Type 0
  LoopAfter tbl (t, gs, done) =
      IsWf t × Keeps tbl t × IsSettled t × (done ≡ true) × GrantsOf tbl gs t × TakesOnly tbl gs t

  -- What was granted later was free also before.
  GrantsOf-earlier :
      (tbl u t : SlotTable) (gs : List Grant) (p : ℕ)
      → Keeps tbl u
      → u.used_slots p ≡ true
      → GrantsOf u gs t
      → GrantsOf tbl gs t × All (λ g'. g'.slot ≢ p) gs
  GrantsOf-earlier tbl u t [] p k h gs = (tt, tt)
  GrantsOf-earlier tbl u t (g ∷ gs) p k h (f, x, a, d, r) =
      let (r', d') = GrantsOf-earlier tbl u t gs p k h r in
      (
        (ground (arith, k.used g.slot), x, ground (arith, k.draining), d, r'),
        (λ e. ground (arith, ap u.used_slots e), d'),
      )

  cons-LoopAfter :
      (tbl t : SlotTable) (g : Grant) (r : SlotTable × List Grant × Bool)
      → After tbl (t, some g)
      → LoopAfter t r
      → LoopAfter tbl (r.0, g ∷ r.1, r.2)
  cons-LoopAfter tbl t g (t', gs, done) (w, k, l, a, f, u, o) (w', k', s, d, r, o') =
      let (r', distinct) = GrantsOf-earlier tbl t t' gs g.slot k u r in
      (
        w',
        record {
          draining = k'.draining ∙ k.draining;
          max_slotid = k'.max_slotid ∙ k.max_slotid;
          target = k'.target ∙ k.target;
          server = k'.server ∙ k.server;
          used = λ j h. k'.used j (k.used j h);
        },
        s,
        d,
        (f, k'.used g.slot u, a, distinct, r'),
        λ j h c. elim (Bool-cases (t.used_slots j)) [
          | inl e ↦ inl (o j e c)
          | inr e ↦ inr (o' j h e)
        ],
      )

  next_round-LoopAfter :
      (fuel : ℕ) (rest : SlotTable → SlotTable × List Grant × Bool) (tbl : SlotTable)
      (r : SlotTable × Option Grant)
      → length tbl.waitq < suc fuel
      → After tbl r
      → ((t : SlotTable) → IsWf t → length t.waitq < fuel → LoopAfter t (rest t))
      → LoopAfter tbl (next_round B W mem now rest r)
  next_round-LoopAfter fuel rest tbl (t, none) h (w, k, s, o) ih =
      (w, k, s, refl, tt, λ j e c. absurd (ground (arith, o j e)))
  next_round-LoopAfter fuel rest tbl (t, some g) h a ih =
      cons-LoopAfter tbl t g (rest t) a (ih t a.0 (omega (arith, a.2)))

  wake_loop-LoopAfter :
      (fuel : ℕ) (tbl : SlotTable)
      → IsWf tbl
      → length tbl.waitq < fuel
      → LoopAfter tbl (wake_loop B W mem now fuel tbl)
  unfolding wake_loop
  wake_loop-LoopAfter zero tbl v h = absurd (omega arith)
  wake_loop-LoopAfter (suc fuel) tbl v h =
      next_round-LoopAfter fuel (λ t. wake_loop B W mem now fuel t) tbl (step tbl) h
        (try_wake_next-After tbl v) (wake_loop-LoopAfter fuel)

  -- `nfs41_wake_slot_table` ends. It keeps the invariant and takes no slot away; every task that it
  -- wakes gets a slot of its own that was free, and only a privileged one does while the table
  -- drains; no other slot is taken. At the end every slot within the limit is in use; or every slot in
  -- the list is, and the memory for the next one, which the limit allows, could not be had; or the
  -- queue has no task that it would offer.
  pub wake_slot_table-settles :
      (tbl : SlotTable)
      → IsWf tbl
      → let (t, grants, done) = wake_slot_table B W mem now tbl in
        IsWf t
        × Keeps tbl t
        × IsSettled t
        × (done ≡ true)
        × GrantsOf tbl grants t
        × TakesOnly tbl grants t
  unfolding wake_slot_table
  wake_slot_table-settles tbl v = wake_loop-LoopAfter (suc (length tbl.waitq)) tbl v (omega arith)

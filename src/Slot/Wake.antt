-- ===== src/Slot/Wake.antt =====
-- Handing slots to waiting tasks: `nfs41_assign_slot` to `nfs41_wake_slot_table` of
-- mynfs/nfs4session.c.
use mynfs.Base.{
  ℕ, zero, suc, ltb, if◌then◌else◌, Bool, true, false, not, ◌||◌, Option, none, some, List, [], ◌∷◌,
  length, modify,
}
use mynfs.Slot.Kernel.{BitSearch, WaitQueue, Task}
use mynfs.Slot.Table.{SlotTable, Found, ok, err, no_fuel, slot_nr_at, alloc_slot, free_slot}

-- What `nfs41_assign_slot` writes to the arguments and the result of the task that it accepts.
pub record Grant : Type 0 where
  pub task : Task
  pub slot : ℕ  -- sa_slot and sr_slot
  pub sr_timestamp : ℕ
  pub sr_status_flags : ℕ
  pub sr_status : ℕ

abbrev pub accepts : SlotTable → Task → Bool
accepts tbl t = not tbl.draining || t.sa_privileged

-- `slot->generation = tbl->generation`
unfoldable pub stamp_slot : SlotTable → ℕ → List Task → SlotTable
stamp_slot tbl p q = record tbl {
  slots = modify tbl.slots p (λ s. record s { generation = tbl.generation });
  waitq = q;
}

-- `__nfs41_wake_and_assign_slot`; no grant stands for `false`.
unfoldable pub assign_first : WaitQueue → ℕ → SlotTable → ℕ → SlotTable × Option Grant
unfolding stamp_slot
assign_first W now tbl p = elim (W.rpc_wake_up_first tbl.waitq (accepts tbl)) [
  | none ↦ (tbl, none)
  | some (t, q) ↦ (
    stamp_slot tbl p q,
    some (record { task = t; slot = p; sr_timestamp = now; sr_status_flags = 0; sr_status = 1 }),
  )
]

unfoldable pub wake_and_assign_slot : WaitQueue → ℕ → SlotTable → ℕ → SlotTable × Option Grant
wake_and_assign_slot W now tbl p =
    if ltb tbl.max_slotid (slot_nr_at tbl.slots p) then (tbl, none) else assign_first W now tbl p

module _ (B : BitSearch) (W : WaitQueue) (mem : ℕ → Bool) (now : ℕ) where
  abbrev pub give_back : SlotTable × Option Grant → ℕ → SlotTable × Option Grant
  give_back (t, some g) p = (t, some g)
  give_back (t, none) p = (free_slot B t p, none)

  abbrev pub offer_found : SlotTable × Found → SlotTable × Option Grant
  offer_found (t, ok p) = give_back (assign_first W now t p) p
  offer_found (t, err e) = (t, none)
  offer_found (t, no_fuel) = (t, none)

  unfoldable pub try_wake_next : SlotTable → SlotTable × Option Grant
  try_wake_next tbl = offer_found (alloc_slot B mem tbl)

  abbrev pub next_round :
      (SlotTable → SlotTable × List Grant × Bool)
      → SlotTable × Option Grant
      → SlotTable × List Grant × Bool
  next_round rest (t, none) = (t, [], true)
  next_round rest (t, some g) = let (t', gs, done) = rest t in (t', g ∷ gs, done)

  -- The loop; the last part says whether it was left by `break`.
  unfoldable pub wake_loop : ℕ → SlotTable → SlotTable × List Grant × Bool
  wake_loop zero tbl = (tbl, [], false)
  wake_loop (suc fuel) tbl = next_round (λ t. wake_loop fuel t) (try_wake_next tbl)

  -- Each round but the last takes a task out of the queue.
  unfoldable pub wake_slot_table : SlotTable → SlotTable × List Grant × Bool
  wake_slot_table tbl = wake_loop (suc (length tbl.waitq)) tbl

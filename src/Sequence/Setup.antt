-- ===== src/Sequence/Setup.antt =====
-- Who gets a slot: `mynfs4_setup_sequence`, also while the session is being recovered.
use mynfs.Base.{ℕ, ◌≡◌, refl, Bool, false, not, ◌&&◌, Option, none, some, Bool-cases, ◌⊎◌, inl, inr}
use mynfs.Slot.Kernel.{BitSearch, WaitQueue, Task}
use mynfs.Slot.Invariant.{IsWf}
use mynfs.Slot.Alloc.{alloc_slot-IsWf, AllocPost, alloc_slot-AllocPost}
use mynfs.Slot.Table.{SlotTable, Found, ok, err, no_fuel, no_mem, busy, too_big, alloc_slot}
use mynfs.Sequence.Done.{IsSound, on_slot-IsWf}
use mynfs.Sequence.Task.{World, Setup, started, setup_sequence, setup_held, attach, sleep}

module _ (B : BitSearch) (W : WaitQueue) (mem : ℕ → Bool) (now : ℕ) (task : Task) where
  -- A started call holds a slot, that was free before; a sleeping one holds none.
  abbrev pub SetupPost : World → World × Setup → Type 0
  SetupPost w (w', started a b c) =
      (p : ℕ) × (w'.sr_slot ≡ some p) × ((w.sr_slot ≡ some p) ⊎ (w.tbl.used_slots p ≡ false))
  SetupPost w (w', _) = w'.sr_slot ≡ none

  sleep-IsWf : (t : SlotTable) → IsWf t → IsWf (sleep B W mem now task t)
  sleep-IsWf t v = record {
    listed = record { numbered = v.listed.numbered; counted = v.listed.counted };
    capped = v.capped;
    sized = v.sized;
    located = v.located;
    highest = v.highest;
  }

  attach_lem :
      (w : World) (t : SlotTable) (f : Found)
      → w.sr_slot ≡ none
      → IsWf t
      → AllocPost mem w.tbl t f
      → IsSound (attach B W mem now task w (t, f)).0
        × SetupPost w (attach B W mem now task w (t, f))
  attach_lem w t (ok p) e v (u, free) =
      (record { wf = on_slot-IsWf t p _ (λ s. refl) v; held = u }, (p, refl, inr free))
  attach_lem w t (err no_mem) e v post = (record { wf = sleep-IsWf t v; held = rw e tt }, e)
  attach_lem w t (err busy) e v post = (record { wf = sleep-IsWf t v; held = rw e tt }, e)
  attach_lem w t (err too_big) e v post = absurd post
  attach_lem w t no_fuel e v post = absurd post

  setup_held_lem :
      (w : World) (h : Option ℕ)
      → w.sr_slot ≡ h
      → IsSound w
      → IsSound (setup_held B W mem now task w h).0 × SetupPost w (setup_held B W mem now task w h)
  setup_held_lem w (some p) e v = (v, (p, e, inl e))
  setup_held_lem w none e v = elim (Bool-cases (w.tbl.draining && not task.sa_privileged)) [
    | inl c ↦ rw c (record { wf = sleep-IsWf w.tbl v.wf; held = rw e tt }, e)
    | inr c ↦ rw c (
        attach_lem w (alloc_slot B mem w.tbl).0 (alloc_slot B mem w.tbl).1 e
          (alloc_slot-IsWf B mem w.tbl v.wf) (alloc_slot-AllocPost B mem w.tbl v.wf))
  ]

  -- Setting a call up keeps the invariant. The call starts only with a slot, which it held already or
  -- which nobody used, and sleeps only without one.
  pub setup_sequence-IsSound :
      (w : World)
      → IsSound w
      → let r = setup_sequence B W mem now task w in IsSound r.0 × SetupPost w r
  unfolding setup_sequence
  setup_sequence-IsSound w v = setup_held_lem w w.sr_slot refl v

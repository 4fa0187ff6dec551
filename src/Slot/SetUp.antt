-- ===== src/Slot/SetUp.antt =====
-- Setting up the two slot tables of a session.
use mynfs.Base.{
  if◌then◌else◌, ℕ, ◌≤◌, ◌<◌, ◌≡◌, ◌≢◌, sym, ap, subst, min, Bool, true, false, Option, none, some,
  List, [], ◌∷◌, ◌⊎◌, inl, inr, Bool-cases, arith,
}
use mynfs.Slot.Table.{Slot, SlotTable, Errno}
use mynfs.Slot.Walk.{IsListed}
use mynfs.Slot.Sizes.{cut, shrink_slot_table-cut}
use mynfs.Slot.Realloc.{IsReset, Reallocated, realloc_slot_table-Reallocated}
use mynfs.Slot.Resize.{realloc_slot_table, release_slot_table}
use mynfs.Slot.Session.{
  Session, release_session_slot_tables, has_no_slots, back_set_up, fore_set_up,
  setup_session_slot_tables,
}

-- A table that no request uses.
pub record IsIdle (tbl : SlotTable) : Type 0 where
  pub listed : IsListed tbl
  pub small : tbl.max_slots ≤ 1024
  pub unused : (i : ℕ) → tbl.used_slots i ≡ false

release_slot_table-empty :
    (tbl : SlotTable) → IsListed tbl → tbl.max_slots ≤ 1024 → (release_slot_table tbl).slots ≡ []
unfolding release_slot_table cut
release_slot_table-empty tbl l small =
    ap (λ (t : SlotTable). t.slots) (shrink_slot_table-cut tbl 0 l small)

module _ (fore back : ℕ → Bool) (ses : Session) where
  -- Both tables are ready, or memory ran out for one of them.
  abbrev pub SetUp : Session × Option Errno → Type 0
  SetUp (s, none) =
      IsReset s.fc_slot_table (min ses.fc_max_reqs 1024) 1
      × (ses.back_chan ≡ true → IsReset s.bc_slot_table (min ses.bc_max_reqs 1024) 0)
  SetUp (s, some e) =
      ((k : ℕ) × (fore k ≡ false))
      ⊎ (((k : ℕ) × (back k ≡ false)) × (s.bc_slot_table.slots ≡ [] → s.fc_slot_table.slots ≡ []))

  has_no_slots-false : (ss : List Slot) → has_no_slots ss ≡ false → ss ≢ []
  has_no_slots-false [] e h = absurd (cc)
  has_no_slots-false (x ∷ xs) e h = absurd (cc)

  -- Where the back channel's table has no slot left, the fore channel's has none either.
  released :
      (s : Session) (t : SlotTable)
      → IsReset s.fc_slot_table (min ses.fc_max_reqs 1024) 1
      → let u : Session = record s { bc_slot_table = t } in
        let v = if has_no_slots t.slots then release_session_slot_tables u else u in
        v.bc_slot_table.slots ≡ [] → v.fc_slot_table.slots ≡ []
  unfolding release_session_slot_tables
  released s t a = elim (Bool-cases (has_no_slots t.slots)) [
    | inl e ↦
        rw e (λ _. release_slot_table-empty s.fc_slot_table a.wf.listed (omega (arith, a.count)))
    | inr e ↦ rw e (λ h. absurd (has_no_slots-false t.slots e h))
  ]

  back_set_up-SetUp :
      (s : Session) (r : SlotTable × Option Errno)
      → IsReset s.fc_slot_table (min ses.fc_max_reqs 1024) 1
      → Reallocated back ses.bc_slot_table (min ses.bc_max_reqs 1024) 0 r
      → SetUp (back_set_up s r)
  back_set_up-SetUp s (t, none) a (inl (_, b)) = (a, λ _. b)
  back_set_up-SetUp s (t, none) a (inr (e, _, _)) = absurd (cc)
  back_set_up-SetUp s (t, some e) a (inl (q, _)) = absurd (cc)
  back_set_up-SetUp s (t, some e) a (inr (_, _, k)) = inr (k, released s t a)

  fore_set_up-SetUp :
      (r : SlotTable × Option Errno)
      → IsIdle ses.bc_slot_table
      → 0 < ses.bc_max_reqs
      → Reallocated fore ses.fc_slot_table (min ses.fc_max_reqs 1024) 1 r
      → SetUp (fore_set_up back ses r)
  fore_set_up-SetUp (t, some e) b n (inl (q, _)) = absurd (cc)
  fore_set_up-SetUp (t, some e) b n (inr (_, _, k)) = inl k
  fore_set_up-SetUp (t, none) b n (inr (q, _, _)) = absurd (cc)
  fore_set_up-SetUp (t, none) b n (inl (_, a)) = elim (Bool-cases ses.back_chan) [
    | inr e ↦ simp e (a, λ h. absurd (cc))
    | inl e ↦
        let s : Session = record ses { fc_slot_table = t } in
        let k =
          back_set_up-SetUp s (realloc_slot_table back ses.bc_slot_table ses.bc_max_reqs 0) a (
            realloc_slot_table-Reallocated back ses.bc_slot_table ses.bc_max_reqs 0 b.listed b.small
              b.unused n) in
        subst
          (λ c. SetUp (
            if c
            then back_set_up s (realloc_slot_table back ses.bc_slot_table ses.bc_max_reqs 0)
            else (s, none)))
          (sym e) k
  ]

  -- Setting up the tables of a session, which no request uses, for at least one request each: on
  -- success the fore channel's table is reset, and the back channel's where the session has one.
  -- Otherwise memory ran out, and where it did for the back channel and left it no slot, the fore
  -- channel's table has none either.
  pub setup_session_slot_tables-SetUp :
      IsIdle ses.fc_slot_table
      → IsIdle ses.bc_slot_table
      → 0 < ses.fc_max_reqs
      → 0 < ses.bc_max_reqs
      → SetUp (setup_session_slot_tables fore back ses)
  unfolding setup_session_slot_tables
  setup_session_slot_tables-SetUp f b m n =
      fore_set_up-SetUp (realloc_slot_table fore ses.fc_slot_table ses.fc_max_reqs 1) b n (
        realloc_slot_table-Reallocated fore ses.fc_slot_table ses.fc_max_reqs 1 f.listed f.small
          f.unused m)

-- ===== src/Layout/Stateid.antt =====
-- The layout stateid and the barrier only move forward, on the 32-bit circle of sequence numbers.
use mynfs.Base.{
  ℕ, ◌^◌, ◌<◌, ◌≡◌, refl, ◌≢◌, if◌then◌else◌, Bool, true, false, ◌||◌, ◌⊎◌, inl, inr, Option, List,
  [], ◌∷◌, Bool-cases, arith,
}
use mynfs.Layout.Range.{seqid_is_newer, unset}
use mynfs.Layout.Header.{
  Stateid, Segment, LayoutHdr, barrier_update, set_plh_return_info, note_returns,
  clear_layoutreturn_info, set_layout_cred, set_layout_stateid, layout_stateid_blocked,
}

-- What noting the segments leaves, where the stateid's number is not 0 and the barrier is that
-- number already.
note_returns-barrier :
    (lo : LayoutHdr) (ss : List Segment) (q : ℕ)
    → lo.plh_stateid.seqid ≡ q
    → lo.plh_barrier ≡ q
    → (note_returns lo ss).plh_barrier ≡ q
unfolding note_returns set_plh_return_info barrier_update seqid_is_newer
note_returns-barrier lo [] q e b = b
note_returns-barrier lo (s ∷ ss) q e b =
    note_returns-barrier
      (if s.layoutreturn then set_plh_return_info lo s.pls_range.iomode 0 else lo) ss q
      (ground arith) (ground arith)

abbrev pub any_layoutreturn : List Segment → Bool
any_layoutreturn [] = false
any_layoutreturn (s ∷ ss) = s.layoutreturn || any_layoutreturn ss

note_returns-requested :
    (lo : LayoutHdr) (ss : List Segment)
    → (note_returns lo ss).return_requested ≡ lo.return_requested || any_layoutreturn ss
unfolding note_returns set_plh_return_info barrier_update
note_returns-requested lo [] = ground arith
note_returns-requested lo (s ∷ ss) = ground (
  arith,
  note_returns-requested
      (if s.layoutreturn then set_plh_return_info lo s.pls_range.iomode 0 else lo) ss,
)

-- After `pnfs_clear_layoutreturn_info` a return is requested exactly when a segment of the list is
-- marked for return.
pub clear_layoutreturn_info-requested :
    (lo : LayoutHdr) → (clear_layoutreturn_info lo).return_requested ≡ any_layoutreturn lo.plh_segs
unfolding clear_layoutreturn_info
clear_layoutreturn_info-requested lo =
    note_returns-requested
      (record lo { plh_return_iomode = unset; plh_return_seq = 0; return_requested = false })
      lo.plh_segs

module _ (differ : ℕ → ℕ → Bool) where
  -- On a valid layout the stateid becomes the newer of the old one and the new one: neither is newer
  -- than what is kept.
  pub set_layout_stateid_newest :
      (lo : LayoutHdr) (new : Stateid) (cred : Option ℕ) (update_barrier : Bool)
      → lo.invalid_stid ≡ false
      → lo.plh_stateid.seqid < 2 ^ 32
      → new.seqid < 2 ^ 32
      → let s = (set_layout_stateid differ lo new cred update_barrier).plh_stateid in
        ((s ≡ lo.plh_stateid) ⊎ (s ≡ new))
        × (seqid_is_newer new.seqid s.seqid ≡ false)
        × (seqid_is_newer lo.plh_stateid.seqid s.seqid ≡ false)
  unfolding set_layout_stateid barrier_update seqid_is_newer
  set_layout_stateid_newest lo new cred update_barrier v a b = ground arith

  -- Where the barrier is to be updated and the new stateid's number is not 0 and newer than a
  -- barrier in place, every stateid older than the new one is blocked afterwards, whether the layout
  -- was valid before or not.
  older_stateids_blocked :
      (lo : LayoutHdr) (new old : Stateid) (cred : Option ℕ)
      → new.seqid ≢ 0
      → (lo.plh_barrier ≡ 0) ⊎ (seqid_is_newer new.seqid lo.plh_barrier ≡ true)
      → seqid_is_newer new.seqid old.seqid ≡ true
      → layout_stateid_blocked (set_layout_stateid differ lo new cred true) old ≡ true
  unfolding set_layout_stateid layout_stateid_blocked clear_layoutreturn_info barrier_update
  older_stateids_blocked lo new old cred n b h = elim (Bool-cases lo.invalid_stid) [
    | inl i ↦
        let c = set_layout_cred differ lo cred in
        ground (
          arith,
          note_returns-barrier
              (record c {
                plh_stateid = new;
                plh_barrier = new.seqid;
                plh_return_iomode = unset;
                plh_return_seq = 0;
                return_requested = false;
              })
              c.plh_segs new.seqid refl refl,
        )
    | inr i ↦ ground arith
  ]

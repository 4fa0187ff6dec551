-- ===== src/Open/Counts.antt =====
-- The mode of an open state is the union of the modes it is open in.
use mynfs.Base.{
  ℕ, ◌-◌, ◌^◌, ◌<◌, ◌≡◌, refl, ap, ◌∙◌, ltb, if◌then◌else◌, true, not, ◌||◌, Bool-cases, inl, inr,
  arith,
}
use mynfs.Open.State.{
  Fmode, OpenState, count_open, joined, same_mode, state_set_mode_locked, update_open_stateflags,
}
use mynfs.Open.Close.{drop_open, close_state, no_read, no_write, undelegate}

-- The mode is the union of the modes of the opens.
pub record IsCounted (s : OpenState) : Type 0 where
  pub read : s.mode.read ≡ (ltb 0 s.n_rdonly || ltb 0 s.n_rdwr)
  pub write : s.mode.write ≡ (ltb 0 s.n_wronly || ltb 0 s.n_rdwr)

-- How many opens there are of a mode.
abbrev pub opens_of : OpenState → Fmode → ℕ
opens_of s fmode =
    if fmode.read
    then if fmode.write then s.n_rdwr else s.n_rdonly
    else if fmode.write
    then s.n_wronly
    else 0

same_mode-eq : (a b : Fmode) → same_mode a b ≡ true → a ≡ b
same_mode-eq a b h = ground arith

pub set_mode-mode : (s : OpenState) (m : Fmode) → (state_set_mode_locked s m).mode ≡ m
unfolding state_set_mode_locked
set_mode-mode s m = elim (Bool-cases (same_mode s.mode m)) [
  | inl e ↦ simp e (same_mode-eq s.mode m e)
  | inr e ↦ simp e refl
]

-- Setting the mode leaves the counts.
set_mode-counts :
    (s : OpenState) (m : Fmode)
    → let t = state_set_mode_locked s m in
      (t.n_rdonly ≡ s.n_rdonly) × (t.n_wronly ≡ s.n_wronly) × (t.n_rdwr ≡ s.n_rdwr)
unfolding state_set_mode_locked
set_mode-counts s m = ground arith

set_mode-IsCounted :
    (s : OpenState) (m : Fmode)
    → m.read ≡ (ltb 0 s.n_rdonly || ltb 0 s.n_rdwr)
    → m.write ≡ (ltb 0 s.n_wronly || ltb 0 s.n_rdwr)
    → IsCounted (state_set_mode_locked s m)
set_mode-IsCounted s m r w =
    let (a, b, c) = set_mode-counts s m in
    let e = set_mode-mode s m in
    record {
      read = ap (λ (x : Fmode). x.read) e ∙ r ∙ rw (a, c);
      write = ap (λ (x : Fmode). x.write) e ∙ w ∙ rw (b, c);
    }

pub update_open_stateflags-IsCounted :
    (s : OpenState) (fmode : Fmode)
    → opens_of s fmode < 2 ^ 32 - 1
    → IsCounted s
    → IsCounted (update_open_stateflags s fmode)
unfolding update_open_stateflags count_open
update_open_stateflags-IsCounted s fmode h v =
    set_mode-IsCounted (count_open s fmode) (joined s.mode fmode) (ground arith) (ground arith)

-- Closing computes the mode anew.
pub close_state-IsCounted : (s : OpenState) (fmode : Fmode) → IsCounted (close_state s fmode).0
unfolding close_state drop_open
close_state-IsCounted s fmode =
    let t = drop_open s fmode in
    set_mode-IsCounted (undelegate t) (record { read = not (no_read t); write = not (no_write t) })
      (ground arith) (ground arith)

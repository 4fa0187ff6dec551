-- ===== src/Open/State.antt =====
-- `struct nfs4_state` and the helpers that read or write one field group of it: mynfs/nfs4_fs.h,
-- mynfs/nfs4state.c, mynfs/nfs4proc.c. A `fmode_t` is its two bits FMODE_READ and FMODE_WRITE, and
-- each function stands for what it does under the locks that the code holds.
use mynfs.Base.{
  ℕ, ◌+◌, ltb, ◌==◌, if◌then◌else◌, Bool, true, false, not, ◌&&◌, ◌||◌, List, [], ◌∷◌, ◌++◌, add32,
}
use mynfs.Open.Stateid.{Stateid, match_other, is_next}

pub record Fmode : Type 0 where
  pub read : Bool
  pub write : Bool

abbrev pub same_bit : Bool → Bool → Bool
same_bit true b = b
same_bit false b = not b

abbrev pub same_mode : Fmode → Fmode → Bool
same_mode a b = same_bit a.read b.read && same_bit a.write b.write

abbrev pub is_read_write : Fmode → Bool
is_read_write m = m.read && m.write

abbrev pub no_mode : Fmode
no_mode = record { read = false; write = false }

-- The flags of the owner and of the client that marking sets stand here too, and the owner's list of
-- states, by their names.
pub record OpenState : Type 0 where
  pub name : ℕ
  pub so_states : List ℕ
  pub n_rdonly : ℕ
  pub n_wronly : ℕ
  pub n_rdwr : ℕ
  pub mode : Fmode  -- state
  pub stateid : Stateid
  pub open_stateid : Stateid
  pub delegated : Bool  -- NFS_DELEGATED_STATE of flags, and so on
  pub is_open : Bool
  pub o_rdonly : Bool
  pub o_wronly : Bool
  pub o_rdwr : Bool
  pub reclaim_reboot : Bool
  pub reclaim_nograce : Bool
  pub recovery_failed : Bool
  pub change_wait : Bool
  pub owner_reclaim_nograce : Bool
  pub client_reclaim_nograce : Bool
  pub wakeups : ℕ  -- calls of wake_up_all(&state->waitq)

abbrev pub without : ℕ → List ℕ → List ℕ
without n [] = []
without n (m ∷ ms) = if m == n then without n ms else m ∷ without n ms

-- The owner's list keeps states with write access before those without.
unfoldable pub state_set_mode_locked : OpenState → Fmode → OpenState
state_set_mode_locked s fmode =
    let rest = without s.name s.so_states in
    if same_mode s.mode fmode then s else record s {
      so_states =
          if same_bit fmode.write s.mode.write
          then s.so_states
          else if fmode.write
          then s.name ∷ rest
          else rest ++ s.name ∷ [];
      mode = fmode;
    }

-- The count of the opens of one mode goes up.
unfoldable pub count_open : OpenState → Fmode → OpenState
count_open s fmode = record s {
  n_rdwr = if is_read_write fmode then add32 s.n_rdwr 1 else s.n_rdwr;
  n_rdonly = if fmode.read && not fmode.write then add32 s.n_rdonly 1 else s.n_rdonly;
  n_wronly = if fmode.write && not fmode.read then add32 s.n_wronly 1 else s.n_wronly;
}

abbrev pub joined : Fmode → Fmode → Fmode
joined a b = record { read = a.read || b.read; write = a.write || b.write }

unfoldable pub update_open_stateflags : OpenState → Fmode → OpenState
unfolding state_set_mode_locked count_open
update_open_stateflags s fmode = state_set_mode_locked (count_open s fmode) (joined s.mode fmode)

abbrev pub valid_open_stateid : OpenState → Bool
valid_open_stateid s = not s.recovery_failed

abbrev pub match_open_stateid_other : OpenState → Stateid → Bool
match_open_stateid_other s stateid = s.is_open && match_other s.open_stateid stateid

unfoldable pub state_mark_reclaim_nograce : OpenState → OpenState
state_mark_reclaim_nograce s =
    if valid_open_stateid s
    then record s {
      reclaim_nograce = true;
      reclaim_reboot = false;
      owner_reclaim_nograce = true;
      client_reclaim_nograce = true;
    }
    else s

unfoldable pub open_stateid_recover_openmode : OpenState → Bool
open_stateid_recover_openmode s =
    (ltb 0 s.n_rdonly && not s.o_rdonly)
    || ((ltb 0 s.n_wronly && not s.o_wronly) || (ltb 0 s.n_rdwr && not s.o_rdwr))

unfoldable pub state_log_update_open_stateid : OpenState → OpenState
state_log_update_open_stateid s =
    if s.change_wait then record s { change_wait = false; wakeups = s.wakeups + 1 } else s

unfoldable pub test_and_clear_all_open_stateid : OpenState → OpenState
unfolding state_mark_reclaim_nograce
test_and_clear_all_open_stateid s =
    let need_recover =
      (s.o_rdonly && ltb 0 s.n_rdonly)
      || ((s.o_wronly && ltb 0 s.n_wronly) || (s.o_rdwr && ltb 0 s.n_rdwr)) in
    let cleared : OpenState = record s { o_rdonly = false; o_wronly = false; o_rdwr = false } in
    if need_recover then state_mark_reclaim_nograce cleared else cleared

unfoldable pub stateid_is_sequential : OpenState → Stateid → Bool
stateid_is_sequential s stateid =
    if s.is_open && match_other stateid s.open_stateid
    then is_next s.open_stateid stateid
    else stateid.seqid == 1

unfoldable pub resync_open_stateid_locked : OpenState → OpenState
resync_open_stateid_locked s =
    if ltb 0 s.n_wronly || (ltb 0 s.n_rdonly || ltb 0 s.n_rdwr)
    then record s {
      o_wronly = if ltb 0 s.n_wronly then true else s.o_wronly;
      o_rdonly = if ltb 0 s.n_rdonly then true else s.o_rdonly;
      o_rdwr = if ltb 0 s.n_rdwr then true else s.o_rdwr;
      is_open = true;
    }
    else s

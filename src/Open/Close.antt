-- ===== src/Open/Close.antt =====
-- Closing: what `__nfs4_close` of mynfs/nfs4state.c and the CLOSE and OPEN_DOWNGRADE calls of
-- mynfs/nfs4proc.c do to the open state.
use mynfs.Base.{
  ◌==◌, if◌then◌else◌, Bool, true, false, not, ◌&&◌, ◌||◌, Option, none, some, List, [], ◌∷◌, add32,
  sub32, is_neg32, is_pos32,
}
use mynfs.Open.Stateid.{Stateid, match_other, is_newer}
use mynfs.Open.State.{
  Fmode, OpenState, is_read_write, state_set_mode_locked, valid_open_stateid,
  match_open_stateid_other, resync_open_stateid_locked, state_log_update_open_stateid,
}
use mynfs.Open.Update.{Wait, woken, timed_out, killed}

-- The count of the opens of one mode goes down.
unfoldable pub drop_open : OpenState → Fmode → OpenState
drop_open s fmode = record s {
  n_rdwr = if is_read_write fmode then sub32 s.n_rdwr 1 else s.n_rdwr;
  n_rdonly = if fmode.read && not fmode.write then sub32 s.n_rdonly 1 else s.n_rdonly;
  n_wronly = if fmode.write && not fmode.read then sub32 s.n_wronly 1 else s.n_wronly;
}

-- No open is left that reads, and none that writes.
abbrev pub no_read : OpenState → Bool
no_read s = s.n_rdwr == 0 && s.n_rdonly == 0

abbrev pub no_write : OpenState → Bool
no_write s = s.n_rdwr == 0 && s.n_wronly == 0

abbrev pub undelegate : OpenState → OpenState
undelegate s = record s { delegated = if no_read s && no_write s then false else s.delegated }

-- `__nfs4_close` up to the unlock; with whether the server has to be called.
unfoldable pub close_state : OpenState → Fmode → OpenState × Bool
unfolding drop_open state_set_mode_locked
close_state s fmode =
    let t = drop_open s fmode in
    (
      state_set_mode_locked (undelegate t)
          (record { read = not (no_read t); write = not (no_write t) }),
      (no_read t && (t.o_rdonly || t.o_rdwr)) || (no_write t && (t.o_wronly || t.o_rdwr)),
    )

-- "Calculate the change in open mode" of `nfs4_close_prepare`: the mode that is left to the server,
-- and whether there is a change.
unfoldable pub close_mode : OpenState → Fmode × Bool
close_mode s =
    let keeps_read = not (s.n_rdonly == 0) && s.o_rdonly in
    let keeps_write = not (s.n_wronly == 0) && s.o_wronly in
    let fmode : Fmode =
      if s.n_rdwr == 0
      then record { read = keeps_read; write = keeps_write }
      else record { read = s.o_rdwr; write = s.o_rdwr } in
    let call_close =
      s.n_rdwr == 0
      && ((s.n_rdonly == 0 && s.o_rdonly)
          || ((s.n_wronly == 0 && s.o_wronly) || (not (is_read_write fmode) && s.o_rdwr))) in
    (fmode, valid_open_stateid s && call_close)

-- `nfs4_sync_open_stateid`, where no writer interferes.
unfoldable pub sync_open_stateid : Stateid → OpenState → Stateid
sync_open_stateid dst s =
    if valid_open_stateid s
    then if match_open_stateid_other s dst
      then if is_neg32 (sub32 dst.seqid s.open_stateid.seqid)
        then record dst { seqid = s.open_stateid.seqid }
        else dst
      else s.open_stateid
    else dst

-- The flags that are cleared for the mode that the server was left with.
unfoldable pub clear_open_flags : OpenState → Fmode → OpenState
clear_open_flags s fmode = record s {
  o_rdwr = false;
  o_rdonly = if fmode.read then s.o_rdonly else false;
  o_wronly = if fmode.write then s.o_wronly else false;
  is_open = if fmode.read || fmode.write then s.is_open else false;
}

abbrev pub take_closed_stateid : OpenState → Option Stateid → OpenState
take_closed_stateid s none = s
take_closed_stateid s (some stateid) =
    if match_other stateid s.open_stateid && not (is_newer stateid s.open_stateid)
    then state_log_update_open_stateid (resync_open_stateid_locked s)
    else state_log_update_open_stateid
        (record s { stateid = if s.delegated then s.stateid else stateid; open_stateid = stateid })

unfoldable pub clear_open_stateid_locked : OpenState → Option Stateid → Fmode → OpenState
unfolding clear_open_flags state_log_update_open_stateid resync_open_stateid_locked
clear_open_stateid_locked s stateid fmode = take_closed_stateid (clear_open_flags s fmode) stateid

-- With whether the state manager is scheduled.
unfoldable pub clear_open_stateid : OpenState → Stateid → Option Stateid → Fmode → OpenState × Bool
clear_open_stateid s arg_stateid stateid fmode =
    let s' =
      if match_open_stateid_other s arg_stateid
      then clear_open_stateid_locked s stateid fmode
      else s in
    (s', s'.reclaim_nograce)

-- What `nfs4_refresh_open_old_stateid` sees before it waits.
pub data Refresh : Type 0 where
  give_up : Refresh
  catch_up : Stateid → Refresh
  wait : Refresh

unfoldable pub refresh_test : Stateid → OpenState → Refresh
refresh_test dst s =
    if valid_open_stateid s && match_open_stateid_other s dst
    then if is_pos32 (sub32 s.open_stateid.seqid dst.seqid)
      then catch_up (record dst { seqid = s.open_stateid.seqid })
      else wait
    else give_up

-- The loop over the waits that take place; `none` where it still waits after the last of them. `cleared`
-- is whether `status` is 0 from an earlier wait. The answer is the stateid, and whether to retry.
unfoldable pub refresh_open_old_stateid :
    Bool → Stateid → List Wait → OpenState → Option (Stateid × Bool)
refresh_open_old_stateid cleared dst [] s = elim (refresh_test dst s) [
  | give_up ↦ some (dst, false)
  | catch_up t ↦ some (t, true)
  | wait ↦ none
]
refresh_open_old_stateid cleared dst (w ∷ ws) s =
    let next =
      refresh_open_old_stateid true dst ws (w.meanwhile (record s { change_wait = true })) in
    let bumped : Stateid = record dst { seqid = add32 dst.seqid 1 } in
    elim (refresh_test dst s) [
      | give_up ↦ some (dst, false)
      | catch_up t ↦ some (t, true)
      | wait ↦ elim w.ended [
        | woken ↦ next
        | timed_out ↦ if cleared then next else some (bumped, true)
        | killed ↦ some (dst, false)
      ]
    ]

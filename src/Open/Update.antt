-- ===== src/Open/Update.antt =====
-- Taking the reply to an OPEN into the open state: mynfs/nfs4proc.c from
-- `nfs_set_open_stateid_locked` to `update_open_stateid`.
use mynfs.Base.{
  if◌then◌else◌, Bool, true, false, not, ◌&&◌, ◌||◌, Option, none, some, List, [], ◌∷◌,
}
use mynfs.Open.Stateid.{Stateid, match_other, is_newer}
use mynfs.Open.State.{
  Fmode, OpenState, is_read_write, update_open_stateflags, state_log_update_open_stateid,
  test_and_clear_all_open_stateid, stateid_is_sequential,
}

-- How a wait for an earlier OPEN ends, and what others do to the state while the locks are dropped.
pub data Waited : Type 0 where
  woken timed_out killed : Waited

pub record Wait : Type 0 where
  pub ended : Waited
  pub meanwhile : OpenState → OpenState

abbrev pub is_woken : Waited → Bool
is_woken woken = true
is_woken _ = false

-- After the loop; with the stateid to free.
unfoldable pub take_open_stateid : OpenState → Stateid → OpenState × Option Stateid
unfolding test_and_clear_all_open_stateid state_log_update_open_stateid
take_open_stateid s stateid =
    let replaced = s.is_open && not (match_other stateid s.open_stateid) in
    let s' = if replaced then test_and_clear_all_open_stateid s else s in
    (
      state_log_update_open_stateid (record s' {
        stateid = if s'.delegated then s'.stateid else stateid;
        open_stateid = stateid;
      }),
      if replaced then some s.open_stateid else none,
    )

module _ (has_session : Bool) (stateid : Stateid) where
  -- The loop, over the waits that take place; `none` where it still waits after the last of them.
  -- `failed` is whether the last wait ended by itself.
  unfoldable pub set_open_stateid_locked :
      Bool → List Wait → OpenState → Option (OpenState × Option Stateid)
  set_open_stateid_locked failed [] s =
      if stateid_is_sequential s stateid
      then some (take_open_stateid s stateid)
      else if failed
      then if match_other stateid s.open_stateid && not (is_newer stateid s.open_stateid)
        then some (s, none)
        else some (take_open_stateid s stateid)
      else if has_session
      then none
      else some (take_open_stateid s stateid)
  set_open_stateid_locked failed (w ∷ ws) s =
      let rest =
        set_open_stateid_locked (not (is_woken w.ended)) ws
          (w.meanwhile (record s { change_wait = true })) in
      if stateid_is_sequential s stateid
      then some (take_open_stateid s stateid)
      else if failed
      then if match_other stateid s.open_stateid && not (is_newer stateid s.open_stateid)
        then some (s, none)
        else some (take_open_stateid s stateid)
      else if has_session
      then rest
      else some (take_open_stateid s stateid)

-- The flags that `nfs_state_set_open_stateid` sets after that.
unfoldable pub set_open_flags : Fmode → OpenState → OpenState
set_open_flags fmode s = record s {
  o_rdonly = if fmode.read && not fmode.write then true else s.o_rdonly;
  o_wronly = if fmode.write && not fmode.read then true else s.o_wronly;
  o_rdwr = if is_read_write fmode then true else s.o_rdwr;
  is_open = true;
}

-- What the code reads of the delegation that `nfs4_get_valid_delegation` finds.
pub record Delegation : Type 0 where
  pub deleg_stateid : Stateid
  pub deleg_type : Fmode
  pub is_current : Bool  -- it is still the inode's
  pub returning : Bool  -- NFS_DELEGATION_RETURNING

abbrev pub allows : Fmode → Fmode → Bool
allows type fmode = (type.read || not fmode.read) && (type.write || not fmode.write)

abbrev pub matches_given : Delegation → Option Stateid → Bool
matches_given d none = true
matches_given d (some given) = match_other d.deleg_stateid given

-- May the open use the delegation?
abbrev pub usable : Option Delegation → Option Stateid → Fmode → Bool
usable none given fmode = false
usable (some d) given fmode =
    d.is_current && (not d.returning && (allows d.deleg_type fmode && matches_given d given))

unfoldable pub state_set_delegation : OpenState → Stateid → OpenState
state_set_delegation s deleg_stateid = record s { stateid = deleg_stateid; delegated = true }

unfoldable pub state_clear_delegation : OpenState → OpenState
state_clear_delegation s = record s { stateid = s.open_stateid; delegated = false }

unfoldable pub state_clear_open_state_flags : OpenState → OpenState
state_clear_open_state_flags s = record s {
  o_rdwr = false;
  o_wronly = false;
  o_rdonly = false;
  is_open = false;
}

-- The state, the return value, the stateid to free, and whether the state manager is scheduled and the
-- delegation marked as referenced.
pub record Updated : Type 0 where
  pub result : OpenState
  pub ret : Bool
  pub freeme : Option Stateid
  pub schedule : Bool
  pub mark_referenced : Bool

abbrev pub set_delegation_if : Bool → Option Delegation → OpenState → OpenState
set_delegation_if true (some d) s = state_set_delegation s d.deleg_stateid
set_delegation_if true none s = s
set_delegation_if false d s = s

-- From the delegation on.
unfoldable pub finish_update :
    Option Delegation → Option Stateid → Fmode → Bool → OpenState × Option Stateid → Updated
finish_update deleg_cur given fmode opened (s, freeme) =
    let use_it = usable deleg_cur given fmode in
    let s' = set_delegation_if use_it deleg_cur s in
    let ret = opened || use_it in
    let s'' = if ret then update_open_stateflags s' fmode else s' in
    record {
      result = s'';
      ret = ret;
      freeme = freeme;
      schedule = s''.reclaim_nograce;
      mark_referenced = use_it;
    }

abbrev pub flagged : Fmode → OpenState × Option Stateid → OpenState × Option Stateid
flagged fmode (s, freeme) = (set_open_flags fmode s, freeme)

abbrev pub after_open :
    Option Delegation
    → Option Stateid
    → Fmode
    → Option (OpenState × Option Stateid)
    → Option Updated
after_open deleg_cur given fmode none = none
after_open deleg_cur given fmode (some r) =
    some (finish_update deleg_cur given fmode true (flagged fmode r))

module _ (has_session : Bool) (waits : List Wait) where
  unfoldable pub update_open_stateid :
      Option Delegation → OpenState → Option Stateid → Option Stateid → Fmode → Option Updated
  update_open_stateid deleg_cur s none given fmode =
      some (finish_update deleg_cur given fmode false (s, none))
  update_open_stateid deleg_cur s (some open_stateid) given fmode =
      after_open deleg_cur given fmode
        (set_open_stateid_locked has_session open_stateid false waits s)

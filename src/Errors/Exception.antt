-- ===== src/Errors/Exception.antt =====
-- `nfs4_do_handle_exception`, `nfs4_handle_exception` and `nfs4_async_handle_exception`
-- (mynfs/nfs4proc.c), with what they call in mynfs/nfs4state.c.
use mynfs.Base.{
  ℕ, ltb, ◌==◌, if◌then◌else◌, Bool, true, false, not, ◌||◌, Option, none, some, List, ◌∷◌,
}
use mynfs.Open.Stateid.{Stateid}
use mynfs.Open.State.{OpenState, valid_open_stateid, state_mark_reclaim_nograce}
use mynfs.Errors.Codes.{Err, Code, success, fail, map_errors}
use mynfs.Errors.Delay.{Limit, Signal}

-- NFS4_OPEN_STATEID_TYPE and so on.
pub record StateidTypes : Type 0 where
  pub open_type : ℕ
  pub lock_type : ℕ
  pub delegation_type : ℕ

-- What the handler asks others to do, the newest first.
pub data Event : Type 0 where
  destroy_layout schedule_state_manager count_delay release_transport : Event
  find_state_and_recover find_delegation_and_recover : Stateid → Event
  return_delegation : Option Stateid → Event

-- What the handler reads and writes of the server, the client and the open state.
pub record World : Type 0 where
  pub limit : Limit
  pub uidgid_nomap : Bool  -- NFS_CAP_UIDGID_NOMAP
  pub persistent_fh : Bool  -- fh_expire_type is NFS4_FH_PERSISTENT
  pub mig_failed : Bool  -- NFS_MIG_FAILED
  pub mig_in_transition : Bool
  pub lease_expired : Bool  -- NFS4CLNT_LEASE_EXPIRED, and so on
  pub check_lease : Bool
  pub moved_set : Bool
  pub lease_moved_set : Bool
  pub state : Option OpenState
  pub events : List Event

-- `struct nfs4_exception`; of the inode, whether it is a regular file.
pub record Exception : Type 0 where
  pub inode : Option Bool
  pub stateid : Option Stateid
  pub timeout : ℕ
  pub retrans : ℕ
  pub task_is_privileged : Bool
  pub delay : Bool
  pub recovering : Bool
  pub retry : Bool
  pub interruptible : Bool

-- What others answer: is a delegation found and marked for return; how the sleep ends; what the wait
-- for the state manager returns, and `cl_cons_state` after it; and has the migration failed then.
pub record Answers : Type 0 where
  pub returned : Bool
  pub slept : Signal
  pub waited : Code
  pub cons_state : Code
  pub failed_migration : Bool

pub record Handling : Type 0 where
  pub w : World
  pub x : Exception
  pub ret : Code

abbrev pub ask : Event → World → World
ask e w = record w { events = e ∷ w.events }

-- The two ends of the function.
abbrev pub wait_on_recovery : World → Exception → Handling
wait_on_recovery w x = record { w = w; x = record x { recovering = true }; ret = success 0 }

abbrev pub give_up : World → Exception → Code → Handling
give_up w x c = record { w = w; x = x; ret = map_errors c }

abbrev pub set_retry : Exception → Exception
set_retry x = record x { retry = true }

unfoldable pub schedule_lease_recovery : World → World
schedule_lease_recovery w =
    ask Event.schedule_state_manager
      (record w { check_lease = if w.lease_expired then w.check_lease else true })

unfoldable pub schedule_lease_moved_recovery : World → World
schedule_lease_moved_recovery w =
    ask Event.schedule_state_manager (record w { lease_moved_set = true })

-- `none` for -NFS4ERR_IO.
unfoldable pub schedule_migration_recovery : World → Option World
schedule_migration_recovery w =
    if not w.persistent_fh || w.mig_failed
    then none
    else some
        (ask Event.schedule_state_manager (record w { mig_in_transition = true; moved_set = true }))

-- `none` for -EBADF.
unfoldable pub schedule_stateid_recovery : World → OpenState → Option World
unfolding state_mark_reclaim_nograce
schedule_stateid_recovery w s =
    if valid_open_stateid s
    then some (
        ask Event.schedule_state_manager (
          ask (Event.find_delegation_and_recover s.stateid)
            (record w { state = some (state_mark_reclaim_nograce s) })))
    else none

abbrev pub after_schedule : World → Exception → Err → Option World → Handling
after_schedule w x e none = give_up w x (fail e)
after_schedule w x e (some w') = wait_on_recovery w' x

abbrev pub destroy_layout_of : Option Bool → World → World
destroy_layout_of (some true) w = ask Event.destroy_layout w
destroy_layout_of _ w = w

module _ (types : StateidTypes) where
  abbrev pub is_recoverable : Stateid → Bool
  is_recoverable s =
      s.kind == types.open_type || (s.kind == types.lock_type || s.kind == types.delegation_type)

  unfoldable pub recoverable_stateid : Option Stateid → Option Stateid
  recoverable_stateid none = none
  recoverable_stateid (some s) = if is_recoverable s then some s else none

  abbrev pub stateid_of_state : Option OpenState → Option Stateid
  stateid_of_state none = none
  stateid_of_state (some s) = recoverable_stateid (some s.stateid)

  abbrev pub or_state : Option Stateid → Option OpenState → Option Stateid
  or_state none state = stateid_of_state state
  or_state (some s) state = some s

  abbrev pub is_delegation : Option Stateid → Bool
  is_delegation none = false
  is_delegation (some s) = s.kind == types.delegation_type

  module _ (answers : Answers) where
    abbrev pub recover_state : Err → Option OpenState → World → Exception → Handling
    recover_state e none w x = give_up w x (fail e)
    recover_state e (some s) w x = after_schedule w x Err.ebadf (schedule_stateid_recovery w s)

    -- From `case -NFS4ERR_OPENMODE` on.
    abbrev pub openmode : Err → Option Stateid → Option Bool → World → Exception → Handling
    openmode e stateid none w x = recover_state e w.state w x
    openmode e stateid (some regular) w x =
        let w' = ask (Event.return_delegation stateid) w in
        if answers.returned
        then wait_on_recovery w' x
        else if is_delegation stateid
        then give_up w' (set_retry x) (fail e)
        else recover_state e w'.state w' x

    abbrev pub revoked : Err → Option Stateid → Option Bool → World → Exception → Handling
    revoked e (some s) (some regular) w x =
        wait_on_recovery (ask (Event.find_state_and_recover s) w) x
    revoked e none inode w x = openmode e none inode w x
    revoked e (some s) none w x = openmode e (some s) none w x

    abbrev pub delayed : World → Exception → Handling
    delayed w x = record { w = w; x = record x { delay = true }; ret = success 0 }

    abbrev pub bad_name : Err → World → Exception → Handling
    bad_name e w x =
        if w.uidgid_nomap
        then give_up (record w { uidgid_nomap = false }) (set_retry x) (fail e)
        else give_up w x (fail e)

    module _ (hz : ℕ) where
      abbrev pub exception_switch : Err → Option Stateid → World → Exception → Handling
      exception_switch Err.badhandle stateid w x =
          give_up (destroy_layout_of x.inode w) x (fail Err.badhandle)
      exception_switch Err.estale stateid w x =
          give_up (destroy_layout_of x.inode w) x (fail Err.estale)
      exception_switch Err.deleg_revoked stateid w x = revoked Err.deleg_revoked stateid x.inode w x
      exception_switch Err.admin_revoked stateid w x = revoked Err.admin_revoked stateid x.inode w x
      exception_switch Err.expired stateid w x = revoked Err.expired stateid x.inode w x
      exception_switch Err.bad_stateid stateid w x = revoked Err.bad_stateid stateid x.inode w x
      exception_switch Err.partner_no_auth stateid w x =
          revoked Err.partner_no_auth stateid x.inode w x
      exception_switch Err.openmode stateid w x = openmode Err.openmode stateid x.inode w x
      exception_switch Err.stale_stateid stateid w x =
          wait_on_recovery (schedule_lease_recovery w) x
      exception_switch Err.stale_clientid stateid w x =
          wait_on_recovery (schedule_lease_recovery w) x
      exception_switch Err.moved stateid w x =
          after_schedule w x Err.eio (schedule_migration_recovery w)
      exception_switch Err.lease_moved stateid w x =
          wait_on_recovery (schedule_lease_moved_recovery w) x
      exception_switch Err.badsession stateid w x = wait_on_recovery w x
      exception_switch Err.badslot stateid w x = wait_on_recovery w x
      exception_switch Err.bad_high_slot stateid w x = wait_on_recovery w x
      exception_switch Err.conn_not_bound_to_session stateid w x = wait_on_recovery w x
      exception_switch Err.deadsession stateid w x = wait_on_recovery w x
      exception_switch Err.seq_false_retry stateid w x = wait_on_recovery w x
      exception_switch Err.seq_misordered stateid w x = wait_on_recovery w x
      exception_switch Err.file_open stateid w x =
          if ltb hz x.timeout
          then give_up w x (fail Err.ebusy)
          else delayed (ask Event.count_delay w) x
      exception_switch Err.delay stateid w x = delayed (ask Event.count_delay w) x
      exception_switch Err.grace stateid w x = delayed w x
      exception_switch Err.layouttrylater stateid w x = delayed w x
      exception_switch Err.recallconflict stateid w x = delayed w x
      exception_switch Err.returnconflict stateid w x = delayed w x
      exception_switch Err.retry_uncached_rep stateid w x =
          give_up w (set_retry x) (fail Err.retry_uncached_rep)
      exception_switch Err.old_stateid stateid w x = give_up w (set_retry x) (fail Err.old_stateid)
      exception_switch Err.badowner stateid w x = bad_name Err.badowner w x
      exception_switch Err.badname stateid w x = bad_name Err.badname w x
      exception_switch e stateid w x = give_up w x (fail e)

      abbrev pub cleared : Exception → Exception
      cleared x = record x { delay = false; recovering = false; retry = false }

      unfoldable pub do_handle_exception : Code → World → Exception → Handling
      unfolding recoverable_stateid schedule_lease_recovery schedule_migration_recovery
      do_handle_exception (success n) w x = record { w = w; x = cleared x; ret = success n }
      do_handle_exception (fail e) w x =
          exception_switch e (or_state (recoverable_stateid x.stateid) w.state) w (cleared x)

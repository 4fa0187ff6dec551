-- ===== src/Errors/Switch.antt =====
-- The switch of `nfs4_do_handle_exception` leaves a delay, a recovery, a retry or an error of the kernel
-- (mynfs/nfs4proc.c).
use mynfs.Base.{
  ℕ, ltb, ◌≡◌, refl, if◌then◌else◌, Bool, true, false, ◌&&◌, ◌||◌, ◌&&◌, Option, none, some, arith,
}
use mynfs.Open.Stateid.{Stateid}
use mynfs.Open.State.{OpenState}
use mynfs.Errors.Codes.{Err, Code, success, fail, is_errno, map_nfs4err, map_err, map_errors}
use mynfs.Errors.Handle.{is_zero}
use mynfs.Errors.Exception.{
  StateidTypes, World, Exception, Answers, Handling, ask, set_retry, do_handle_exception,
  exception_switch, give_up, schedule_stateid_recovery, schedule_migration_recovery, recover_state,
  openmode, revoked, after_schedule, bad_name, is_delegation, wait_on_recovery, Event, delayed,
  destroy_layout_of, cleared, or_state, recoverable_stateid,
}
use mynfs.Errors.Handle.{is_zero}

-- An error of the kernel.
abbrev pub is_kernel_error : Code → Bool
is_kernel_error (success n) = false
is_kernel_error (fail e) = is_errno e

-- The caller tries again, or returns an error of the kernel.
abbrev pub is_settled : Handling → Bool
is_settled h = h.x.retry || is_kernel_error h.ret

abbrev pub is_handled : Handling → Bool
is_handled h = (h.x.delay && is_zero h.ret) || ((h.x.recovering && is_zero h.ret) || is_settled h)

map_nfs4err_errno : (e : Err) → is_errno (map_nfs4err e) ≡ true
map_nfs4err_errno Err.resource = refl
map_nfs4err_errno _ = refl

map_err_errno : (e : Err) → is_errno (map_err e) ≡ true
unfolding map_err
map_err_errno e = if-errno (is_errno e) refl
  where
    if-errno :
        (b : Bool) → is_errno e ≡ b → is_errno (elim b [ true ↦ e | false ↦ map_nfs4err e ]) ≡ true
    if-errno true h = h
    if-errno false h = map_nfs4err_errno e

or_last : (a b c d : Bool) → d ≡ true → (a || (b || (c || d))) ≡ true
or_last a b c d h = ground arith

or_retry : (a b d : Bool) → (a || (b || (true || d))) ≡ true
or_retry a b d = ground arith

or_recovering : (a c d : Bool) → (a || (true || (c || d))) ≡ true
or_recovering a c d = ground arith

if-is_handled :
    (b : Bool) (h k : Handling)
    → is_handled h ≡ true
    → is_handled k ≡ true
    → is_handled (if b then h else k) ≡ true
if-is_handled true h k p q = p
if-is_handled false h k p q = q

module _ (w : World) (x : Exception) where
  give_up-is_handled : (e : Err) → is_handled (give_up w x (fail e)) ≡ true
  unfolding map_errors
  give_up-is_handled e =
      or_last (x.delay && false) (x.recovering && false) x.retry (is_errno (map_err e))
        (map_err_errno e)

  give_up-retried : (c : Code) → is_handled (give_up w (set_retry x) c) ≡ true
  give_up-retried c =
      let z = is_zero (map_errors c) in
      or_retry (x.delay && z) (x.recovering && z) (is_kernel_error (map_errors c))

  after_schedule-is_handled :
      (e : Err) (o : Option World) → is_handled (after_schedule w x e o) ≡ true
  after_schedule-is_handled e none = give_up-is_handled e
  after_schedule-is_handled e (some w') = or_recovering (x.delay && true) x.retry false

  recover_state-is_handled :
      (types : StateidTypes) (answers : Answers) (e : Err) (o : Option OpenState)
      → is_handled (recover_state types answers e o w x) ≡ true
  recover_state-is_handled types answers e none = give_up-is_handled e
  recover_state-is_handled types answers e (some s) =
      after_schedule-is_handled Err.ebadf (schedule_stateid_recovery w s)

module _ (types : StateidTypes) (answers : Answers) (e : Err) (w : World) (x : Exception) where
  openmode-is_handled :
      (s : Option Stateid) (inode : Option Bool)
      → is_handled (openmode types answers e s inode w x) ≡ true
  openmode-is_handled s none = recover_state-is_handled w x types answers e w.state
  openmode-is_handled s (some regular) =
      let w' = ask (Event.return_delegation s) w in
      let unmarked = recover_state types answers e w'.state w' x in
      if-is_handled answers.returned (wait_on_recovery w' x)
        (if is_delegation types s then give_up w' (set_retry x) (fail e) else unmarked)
        (or_recovering (x.delay && true) x.retry false)
        (if-is_handled (is_delegation types s) (give_up w' (set_retry x) (fail e)) unmarked
          (give_up-retried w' x (fail e)) (recover_state-is_handled w' x types answers e w'.state))

  revoked-is_handled :
      (s : Option Stateid) (inode : Option Bool)
      → is_handled (revoked types answers e s inode w x) ≡ true
  revoked-is_handled (some s) (some regular) = or_recovering (x.delay && true) x.retry false
  revoked-is_handled none inode = openmode-is_handled none inode
  revoked-is_handled (some s) none = openmode-is_handled (some s) none

  bad_name-is_handled : is_handled (bad_name types answers e w x) ≡ true
  bad_name-is_handled =
      if-is_handled w.uidgid_nomap
        (give_up (record w { uidgid_nomap = false }) (set_retry x) (fail e)) (give_up w x (fail e))
        (give_up-retried (record w { uidgid_nomap = false }) x (fail e)) (give_up-is_handled w x e)

module _ (types : StateidTypes) (answers : Answers) (hz : ℕ) (s : Option Stateid) where
  exception_switch-is_handled :
      (e : Err) (w : World) (x : Exception)
      → is_handled (exception_switch types answers hz e s w x) ≡ true
  unfolding map_errors map_err
  exception_switch-is_handled Err.badhandle w x =
      give_up-is_handled (destroy_layout_of x.inode w) x Err.badhandle
  exception_switch-is_handled Err.estale w x =
      give_up-is_handled (destroy_layout_of x.inode w) x Err.estale
  exception_switch-is_handled Err.deleg_revoked w x =
      revoked-is_handled types answers Err.deleg_revoked w x s x.inode
  exception_switch-is_handled Err.admin_revoked w x =
      revoked-is_handled types answers Err.admin_revoked w x s x.inode
  exception_switch-is_handled Err.expired w x =
      revoked-is_handled types answers Err.expired w x s x.inode
  exception_switch-is_handled Err.bad_stateid w x =
      revoked-is_handled types answers Err.bad_stateid w x s x.inode
  exception_switch-is_handled Err.partner_no_auth w x =
      revoked-is_handled types answers Err.partner_no_auth w x s x.inode
  exception_switch-is_handled Err.openmode w x =
      openmode-is_handled types answers Err.openmode w x s x.inode
  exception_switch-is_handled Err.moved w x =
      after_schedule-is_handled w x Err.eio (schedule_migration_recovery w)
  exception_switch-is_handled Err.file_open w x =
      if-is_handled (ltb hz x.timeout) (give_up w x (fail Err.ebusy))
        (delayed types answers (ask Event.count_delay w) x) (give_up-is_handled w x Err.ebusy) refl
  exception_switch-is_handled Err.badowner w x = bad_name-is_handled types answers Err.badowner w x
  exception_switch-is_handled Err.badname w x = bad_name-is_handled types answers Err.badname w x
  exception_switch-is_handled e w x = ground arith

pub do_handle_exception-is_handled :
    (types : StateidTypes) (answers : Answers) (hz : ℕ) (e : Err) (w : World) (x : Exception)
    → is_handled (do_handle_exception types answers hz (fail e) w x) ≡ true
unfolding do_handle_exception
do_handle_exception-is_handled types answers hz e w x =
    exception_switch-is_handled types answers hz
      (or_state types (recoverable_stateid types x.stateid) w.state) e w
      (cleared types answers hz x)

-- ===== src/Errors/Handle.antt =====
-- What follows the switch: `nfs4_handle_exception`, `nfs4_async_handle_exception` and
-- `nfs4_async_handle_error`, and the loop of the calls (mynfs/nfs4proc.c).
use mynfs.Base.{ℕ, zero, ◌==◌, if◌then◌else◌, Bool, true, false, Option, none, some, List, [], ◌∷◌}
use mynfs.Errors.Codes.{Err, Code, success, fail}
use mynfs.Errors.Delay.{update_delay, nfs4_delay, exception_should_retrans}
use mynfs.Errors.Exception.{
  StateidTypes, Event, World, Exception, Answers, Handling, ask, set_retry, do_handle_exception,
}

abbrev pub is_zero : Code → Bool
is_zero (success n) = n == 0
is_zero (fail e) = false

abbrev pub retry_if_zero : Handling → Handling
retry_if_zero h = if is_zero h.ret then record h { x = set_retry h.x } else h

-- Of what the wait for the state manager returns (0 or an error) and `cl_cons_state`.
unfoldable pub wait_clnt_recover : Code → Code → Code
wait_clnt_recover (success zero) (fail e) = fail e
wait_clnt_recover waited cons_state = waited

abbrev pub or_zero : Option ℕ → ℕ
or_zero none = 0
or_zero (some n) = n

module _ (types : StateidTypes) (hz : ℕ) where
  -- The timeout doubles for the next delay.
  abbrev pub next_timeout : Exception → Exception
  next_timeout x = record x { timeout = or_zero ((update_delay hz (some x.timeout)).1) }

  -- The delay, where the limit on retries allows it.
  abbrev pub delay_within : Code × ℕ → Code → Handling → Handling
  delay_within (success n, retrans) slept h =
      retry_if_zero (record h { x = next_timeout (record h.x { retrans = retrans }); ret = slept })
  delay_within (fail e, retrans) slept h = record h {
    x = record h.x { retrans = retrans; retry = false };
    ret = fail e;
  }

  abbrev pub after_recovery : Answers → Handling → Handling
  after_recovery answers h =
      if h.x.task_is_privileged
      then record h { ret = fail Err.edeadlock }
      else if answers.failed_migration
      then record h { ret = fail Err.eio }
      else retry_if_zero (record h { ret = wait_clnt_recover answers.waited answers.cons_state })

  abbrev pub after_switch : Answers → Handling → Handling
  after_switch answers h =
      if h.x.delay
      then delay_within (exception_should_retrans h.w.limit h.x.retrans)
          (nfs4_delay h.x.interruptible answers.slept) h
      else if h.x.recovering
      then after_recovery answers h
      else h

  unfoldable pub handle_exception : Answers → Code → World → Exception → Handling
  unfolding do_handle_exception exception_should_retrans nfs4_delay update_delay wait_clnt_recover
  handle_exception answers code w x =
      after_switch answers (do_handle_exception types answers hz code w x)

  abbrev pub is_moved : Code → Bool
  is_moved (fail Err.moved) = true
  is_moved _ = false

  -- The end of the asynchronous handler; after NFS4ERR_MOVED the transport is chosen anew.
  abbrev pub async_retry : Code → Handling → Handling
  async_retry code h =
      if is_zero h.ret
      then record h {
        x = set_retry h.x;
        w = if is_moved code then ask Event.release_transport h.w else h.w;
      }
      else h

  abbrev pub async_delay : Code → Code × ℕ → Handling → Handling
  async_delay code (success n, retrans) h =
      async_retry code (record h { x = next_timeout (record h.x { retrans = retrans }) })
  async_delay code (fail e, retrans) h = record h {
    x = record h.x { retrans = retrans; retry = false };
    ret = fail e;
  }

  -- Here the task is put to sleep on a queue, and nobody waits.
  abbrev pub async_after_switch : Code → Handling → Handling
  async_after_switch code h =
      if h.x.delay
      then async_delay code (exception_should_retrans h.w.limit h.x.retrans) h
      else if h.x.recovering
      then if h.x.task_is_privileged
        then record h { ret = fail Err.edeadlock }
        else async_retry code h
      else if h.w.mig_failed
      then record h { ret = fail Err.eio }
      else h

  unfoldable pub async_handle_exception : Answers → Code → World → Exception → Handling
  unfolding do_handle_exception exception_should_retrans update_delay
  async_handle_exception answers code w x =
      async_after_switch code (do_handle_exception types answers hz code w x)

  abbrev pub fresh_exception : Option ℕ → Exception
  fresh_exception timeout = record {
    inode = none;
    stateid = none;
    timeout = or_zero timeout;
    retrans = 0;
    task_is_privileged = false;
    delay = false;
    recovering = false;
    retry = false;
    interruptible = false;
  }

  abbrev pub kept_timeout : Option ℕ → Exception → Option ℕ
  kept_timeout none x = none
  kept_timeout (some t) x = if x.delay then some x.timeout else some t

  -- With the state as `w.state`: the status of the task, the timeout afterwards, and the result.
  unfoldable pub async_handle_error :
      Answers → Code → Option ℕ → World → World × Code × Option ℕ × Code
  unfolding async_handle_exception
  async_handle_error answers (success n) timeout w = (w, success n, timeout, success 0)
  async_handle_error answers (fail e) timeout w =
      let h = async_handle_exception answers (fail e) w (fresh_exception timeout) in
      (h.w, h.ret, kept_timeout timeout h.x, if h.x.retry then fail Err.eagain else success 0)

  -- `do { err = nfs4_handle_exception(server, call(), &exception) } while (exception.retry)`, over what
  -- the calls return; `none` where it goes on after the last of them.
  unfoldable pub call_loop : List (Code × Answers) → World → Exception → Option Handling
  unfolding handle_exception
  call_loop [] w x = none
  call_loop ((code, answers) ∷ rounds) w x =
      let h = handle_exception answers code w x in
      let rest = call_loop rounds h.w h.x in if h.x.retry then rest else some h

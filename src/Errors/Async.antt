-- ===== src/Errors/Async.antt =====
-- No error is lost in `nfs4_async_handle_error` either (mynfs/nfs4proc.c).
use mynfs.Base.{
  ℕ, ◌≡◌, refl, ◌⊎◌, inl, inr, if◌then◌else◌, Bool, true, false, ◌&&◌, ◌||◌, Option, arith,
}
use mynfs.Errors.Codes.{Err, Code, success, fail}
use mynfs.Errors.Delay.{exception_should_retrans, limit_of}
use mynfs.Errors.Exception.{
  StateidTypes, Event, World, Answers, Handling, set_retry, do_handle_exception, ask,
}
use mynfs.Errors.Handle.{
  is_zero, is_moved, next_timeout, async_retry, async_delay, async_after_switch,
  async_handle_exception, async_handle_error, fresh_exception,
}
use mynfs.Errors.Switch.{is_kernel_error, is_settled, is_handled, do_handle_exception-is_handled}
use mynfs.Errors.Settled.{
  is_status, if-is_settled, settled_error, or_none, should_retrans_at-is_status,
}

or_zero_settled : (z b c : Bool) (d : Bool) → ((d && z) || ((b && z) || c)) ≡ true → (z || c) ≡ true
or_zero_settled z b c d h = ground arith

not_first : (z c : Bool) → z ≡ false → (z || c) ≡ true → c ≡ true
not_first z c e h = ground arith

module _ (types : StateidTypes) (hz : ℕ) where
  async_retry-is_settled :
      (code : Code) (h : Handling)
      → (is_zero h.ret || is_settled h) ≡ true
      → is_settled (async_retry types hz code h) ≡ true
  async_retry-is_settled code h p =
      if-is_settled types hz (is_zero h.ret)
        (record h {
          x = set_retry h.x;
          w = if is_moved types hz code then ask Event.release_transport h.w else h.w;
        })
        h (λ e. refl) (λ e. not_first (is_zero h.ret) (is_settled h) e p)

  async_delay-is_settled :
      (code : Code) (r : Code × ℕ) (h : Handling)
      → is_status (r.0) ≡ true
      → (is_zero h.ret || is_settled h) ≡ true
      → is_settled (async_delay types hz code r h) ≡ true
  async_delay-is_settled code (success n, retrans) h p q =
      async_retry-is_settled code
        (record h { x = next_timeout types hz (record h.x { retrans = retrans }) }) q
  async_delay-is_settled code (fail e, retrans) h p q = p

  async_after_switch-is_settled :
      (code : Code) (h : Handling)
      → is_handled h ≡ true
      → is_settled (async_after_switch types hz code h) ≡ true
  unfolding exception_should_retrans
  async_after_switch-is_settled code h r =
      let limited = exception_should_retrans h.w.limit h.x.retrans in
      let zero_or = or_zero_settled (is_zero h.ret) h.x.recovering (is_settled h) h.x.delay r in
      let deadlock = record h { ret = fail Err.edeadlock } in
      let again = async_retry types hz code h in
      let unhandled = if h.w.mig_failed then record h { ret = fail Err.eio } else h in
      if-is_settled types hz h.x.delay (async_delay types hz code limited h)
        (if h.x.recovering then if h.x.task_is_privileged then deadlock else again else unhandled)
        (λ e.
          async_delay-is_settled code limited h
            (should_retrans_at-is_status (limit_of h.w.limit) h.x.retrans) zero_or)
        (λ d.
          if-is_settled types hz h.x.recovering (if h.x.task_is_privileged then deadlock else again)
            unhandled
            (λ e.
              if-is_settled types hz h.x.task_is_privileged deadlock again
                (λ e. settled_error types hz h Err.edeadlock refl)
                (λ e. async_retry-is_settled code h zero_or))
            (λ e.
              if-is_settled types hz h.w.mig_failed (record h { ret = fail Err.eio }) h
                (λ e. settled_error types hz h Err.eio refl)
                (λ f. or_none h.x.delay h.x.recovering (is_zero h.ret) (is_settled h) d e r)))

  retry_or_error :
      (b : Bool) (c : Code)
      → (b || is_kernel_error c) ≡ true
      → ((if b then fail Err.eagain else success 0) ≡ fail Err.eagain) ⊎ (is_kernel_error c ≡ true)
  retry_or_error true c h = inl refl
  retry_or_error false c h = inr h

  -- The task that failed is started again, which EAGAIN asks for, or its status is an error of the
  -- kernel afterwards.
  pub async_handle_error-restarts :
      (answers : Answers) (e : Err) (timeout : Option ℕ) (w : World)
      → let (w', status, timeout', result) =
          async_handle_error types hz answers (fail e) timeout w in
        (result ≡ fail Err.eagain) ⊎ (is_kernel_error status ≡ true)
  unfolding async_handle_error async_handle_exception
  async_handle_error-restarts answers e timeout w =
      let h =
        async_handle_exception types hz answers (fail e) w (fresh_exception types hz timeout) in
      retry_or_error h.x.retry h.ret (
        async_after_switch-is_settled (fail e)
          (do_handle_exception types answers hz (fail e) w (fresh_exception types hz timeout))
          (do_handle_exception-is_handled types answers hz e w (fresh_exception types hz timeout)))

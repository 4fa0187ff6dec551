-- ===== src/Errors/Settled.antt =====
-- No error is lost on the way through `nfs4_handle_exception`, and none of the protocol's codes gets out
-- (mynfs/nfs4proc.c).
use mynfs.Base.{
  ℕ, zero, suc, ◌==◌, ◌≡◌, refl, subst, if◌then◌else◌, Bool, true, false, ◌||◌, ◌&&◌, Option, none,
  some, arith, List, [], ◌∷◌, All,
}
use mynfs.Errors.Codes.{Err, Code, success, fail, is_errno, is_fail}
use mynfs.Errors.Delay.{
  Signal, no_signal, signal, fatal_signal, nfs4_delay, delay_killable, delay_interruptible,
  exception_should_retrans, should_retrans_at, limit_of,
}
use mynfs.Errors.Exception.{
  StateidTypes, World, Exception, Answers, Handling, set_retry, do_handle_exception,
}
use mynfs.Errors.Handle.{
  is_zero, after_switch, delay_within, after_recovery, handle_exception, retry_if_zero,
  wait_clnt_recover, call_loop, next_timeout,
}
use mynfs.Errors.Switch.{is_kernel_error, is_settled, is_handled, do_handle_exception-is_handled}

-- 0 or an error of the kernel.
abbrev pub is_status : Code → Bool
is_status (success n) = n == 0
is_status (fail e) = is_errno e

-- `cl_cons_state`, of which the negative values are errors of the kernel.
abbrev pub is_cons_state : Code → Bool
is_cons_state (success n) = true
is_cons_state (fail e) = is_errno e

retry_if_zero-is_settled :
    (h : Handling) → is_status h.ret ≡ true → is_settled (retry_if_zero h) ≡ true
retry_if_zero-is_settled h p = zero_or h.ret p
  where
    zero_or :
        (c : Code)
        → is_status c ≡ true
        → is_settled (if is_zero c then record h { x = set_retry h.x } else record h { ret = c })
          ≡ true
    zero_or (success zero) p = refl
    zero_or (success (suc n)) p = absurd (ground arith)
    zero_or (fail e) p = ground arith

wait_clnt_recover-is_status :
    (waited cons_state : Code)
    → is_status waited ≡ true
    → is_cons_state cons_state ≡ true
    → is_status (wait_clnt_recover waited cons_state) ≡ true
unfolding wait_clnt_recover
wait_clnt_recover-is_status (success zero) (fail e) p q = q
wait_clnt_recover-is_status (success zero) (success n) p q = p
wait_clnt_recover-is_status (success (suc n)) c p q = p
wait_clnt_recover-is_status (fail e) c p q = p

nfs4_delay-is_status : (b : Bool) (s : Signal) → is_status (nfs4_delay b s) ≡ true
unfolding nfs4_delay delay_killable delay_interruptible
nfs4_delay-is_status true no_signal = refl
nfs4_delay-is_status true signal = refl
nfs4_delay-is_status true fatal_signal = refl
nfs4_delay-is_status false no_signal = refl
nfs4_delay-is_status false signal = refl
nfs4_delay-is_status false fatal_signal = refl

pub should_retrans_at-is_status :
    (l : Option ℕ) (n : ℕ) → is_status ((should_retrans_at l n).0) ≡ true
should_retrans_at-is_status none n = refl
should_retrans_at-is_status (some l) n = ground arith

pub or_none :
    (a b z c : Bool) → a ≡ false → b ≡ false → ((a && z) || ((b && z) || c)) ≡ true → c ≡ true
or_none a b z c p q r = ground arith

module _ (types : StateidTypes) (hz : ℕ) where
  delay_within-is_settled :
      (r : Code × ℕ) (slept : Code) (h : Handling)
      → is_status (r.0) ≡ true
      → is_status slept ≡ true
      → is_settled (delay_within types hz r slept h) ≡ true
  delay_within-is_settled (success n, retrans) slept h p q =
      retry_if_zero-is_settled
        (record h { x = next_timeout types hz (record h.x { retrans = retrans }); ret = slept }) q
  delay_within-is_settled (fail e, retrans) slept h p q = p

  pub if-is_settled :
      (b : Bool) (h k : Handling)
      → (b ≡ true → is_settled h ≡ true)
      → (b ≡ false → is_settled k ≡ true)
      → is_settled (if b then h else k) ≡ true
  if-is_settled true h k p q = p refl
  if-is_settled false h k p q = q refl

  pub settled_error :
      (h : Handling) (e : Err) → is_errno e ≡ true → is_settled (record h { ret = fail e }) ≡ true
  settled_error h e p = ground arith

  module _ (answers : Answers) (p : is_status answers.waited ≡ true)
      (q : is_cons_state answers.cons_state ≡ true) where
    after_recovery-is_settled :
        (h : Handling) → is_settled (after_recovery types hz answers h) ≡ true
    after_recovery-is_settled h =
        let status = wait_clnt_recover answers.waited answers.cons_state in
        if-is_settled h.x.task_is_privileged (record h { ret = fail Err.edeadlock })
          (if answers.failed_migration
            then record h { ret = fail Err.eio }
            else retry_if_zero (record h { ret = status }))
          (λ e. settled_error h Err.edeadlock refl)
          (λ e.
            if-is_settled answers.failed_migration (record h { ret = fail Err.eio })
              (retry_if_zero (record h { ret = status })) (λ e. settled_error h Err.eio refl)
              (λ e.
                retry_if_zero-is_settled (record h { ret = status })
                  (wait_clnt_recover-is_status answers.waited answers.cons_state p q)))

    after_switch-is_settled :
        (h : Handling) → is_handled h ≡ true → is_settled (after_switch types hz answers h) ≡ true
    unfolding exception_should_retrans
    after_switch-is_settled h r =
        let limited = exception_should_retrans h.w.limit h.x.retrans in
        let slept = nfs4_delay h.x.interruptible answers.slept in
        if-is_settled h.x.delay (delay_within types hz limited slept h)
          (if h.x.recovering then after_recovery types hz answers h else h)
          (λ e.
            delay_within-is_settled limited slept h
              (should_retrans_at-is_status (limit_of h.w.limit) h.x.retrans)
              (nfs4_delay-is_status h.x.interruptible answers.slept))
          (λ d.
            if-is_settled h.x.recovering (after_recovery types hz answers h) h
              (λ e. after_recovery-is_settled h)
              (λ e. or_none h.x.delay h.x.recovering (is_zero h.ret) (is_settled h) d e r))

    handle_exception-is_settled :
        (e : Err) (w : World) (x : Exception)
        → is_settled (handle_exception types hz answers (fail e) w x) ≡ true
    unfolding handle_exception
    handle_exception-is_settled e w x =
        after_switch-is_settled (do_handle_exception types answers hz (fail e) w x)
          (do_handle_exception-is_handled types answers hz e w x)

  -- If the loop ends here.
  if-is_kernel_error :
      (b : Bool) (k h : Handling) (rest : Option Handling)
      → (rest ≡ some h → is_kernel_error h.ret ≡ true)
      → (b || is_kernel_error k.ret) ≡ true
      → (if b then rest else some k) ≡ some h
      → is_kernel_error h.ret ≡ true
  if-is_kernel_error true k h rest f p e = f e
  if-is_kernel_error false k h rest f p e =
      let same : k ≡ h = cc in subst (λ r. is_kernel_error r.ret ≡ true) same p

  -- A round of the loop in which the call fails, and its wait ends as it may.
  abbrev pub IsFailing : Code × Answers → Type 0
  IsFailing (code, answers) =
      (is_fail code ≡ true)
      × (is_status answers.waited ≡ true)
      × (is_cons_state answers.cons_state ≡ true)

  failing-is_settled :
      (code : Code) (answers : Answers) (w : World) (x : Exception)
      → IsFailing (code, answers)
      → is_settled (handle_exception types hz answers code w x) ≡ true
  failing-is_settled (success n) answers w x (a, b, c) = cc
  failing-is_settled (fail e) answers w x (a, b, c) = handle_exception-is_settled answers b c e w x

  -- While every call fails, and the waits for the state manager give 0 or errors of the kernel, the
  -- loop around `nfs4_handle_exception` never ends with success, and never with a code of the protocol:
  -- what it returns is an error of the kernel.
  pub call_loop-is_kernel_error :
      (rounds : List (Code × Answers)) (w : World) (x : Exception) (h : Handling)
      → All IsFailing rounds
      → call_loop types hz rounds w x ≡ some h
      → is_kernel_error h.ret ≡ true
  unfolding call_loop
  call_loop-is_kernel_error [] w x h p e = cc
  call_loop-is_kernel_error ((code, answers) ∷ rounds) w x h (a, p) e =
      let k = handle_exception types hz answers code w x in
      if-is_kernel_error k.x.retry k h (call_loop types hz rounds k.w k.x)
        (call_loop-is_kernel_error rounds k.w k.x h p) (failing-is_settled code answers w x a) e

-- ===== src/Errors/Softerr.antt =====
-- Under the mount option `softerr` the retries after a busy server end, and not before the limit; else
-- they do not end (mynfs/nfs4proc.c).
use mynfs.Base.{
  ℕ, ◌+◌, ◌%◌, ◌^◌, ◌≤◌, ◌<◌, ◌≡◌, refl, sym, subst, ap, ◌∙◌, if◌then◌else◌, Bool, true, false,
  Option, none, some, List, [], ◌∷◌, All, length, arith, ◌⊎◌, inl, inr,
}
use mynfs.Errors.Codes.{Err, Code, success, fail}
use mynfs.Errors.Delay.{
  Limit, no_signal, nfs4_delay, delay_killable, delay_interruptible, exception_should_retrans,
  should_retrans_at, limit_of,
}
use mynfs.Errors.Exception.{
  StateidTypes, World, Exception, Answers, Handling, Event, do_handle_exception, delayed, cleared,
  ask,
}
use mynfs.Errors.Handle.{handle_exception, call_loop, delay_within}

-- A server that asks to wait.
abbrev pub is_busy : Err → Bool
is_busy Err.delay = true
is_busy Err.grace = true
is_busy Err.layouttrylater = true
is_busy Err.recallconflict = true
is_busy Err.returnconflict = true
is_busy _ = false

-- A round in which the server is busy and no signal ends the wait.
abbrev pub IsBusy : Code × Answers → Type 0
IsBusy (success n, answers) = true ≡ false
IsBusy (fail e, answers) = (is_busy e ≡ true) × (answers.slept ≡ no_signal)

-- The loop ended with an error.
abbrev pub EndsWith : Err → Option Handling → Type 0
EndsWith e none = true ≡ false
EndsWith e (some h) = (h.ret ≡ fail e) × (h.x.retry ≡ false)

nfs4_delay-no_signal : (b : Bool) → nfs4_delay b no_signal ≡ success 0
unfolding nfs4_delay delay_killable delay_interruptible
nfs4_delay-no_signal true = refl
nfs4_delay-no_signal false = refl

module _ (types : StateidTypes) (hz : ℕ) (answers : Answers) where
  -- The round of a busy server waits, within the limit.
  handle_exception_busy :
      (e : Err) (w : World) (x : Exception)
      → is_busy e ≡ true
      → (w' : World) × (w'.limit ≡ w.limit)
        × (handle_exception types hz answers (fail e) w x
            ≡ delay_within types hz
                (exception_should_retrans w'.limit x.retrans)
                (nfs4_delay x.interruptible answers.slept)
                (delayed types answers w' (cleared types answers hz x)))
  unfolding handle_exception do_handle_exception
  handle_exception_busy Err.delay w x b = (ask Event.count_delay w, refl, refl)
  handle_exception_busy Err.grace w x b = (w, refl, refl)
  handle_exception_busy Err.layouttrylater w x b = (w, refl, refl)
  handle_exception_busy Err.recallconflict w x b = (w, refl, refl)
  handle_exception_busy Err.returnconflict w x b = (w, refl, refl)
  handle_exception_busy e w x b = cc

  should_retrans_at_spent :
      (n k : ℕ) → n ≤ k → should_retrans_at (some n) k ≡ (fail Err.eagain, (k + 1) % 2 ^ 16)
  should_retrans_at_spent n k h = ground arith

  should_retrans_at_left :
      (n k : ℕ) → k < n → n < 2 ^ 16 → should_retrans_at (some n) k ≡ (success 0, k + 1)
  should_retrans_at_left n k h b = ground arith

  -- The loop goes on, with one more retry counted.
  abbrev Retried : Limit → ℕ → Handling → Type 0
  Retried l k h = (h.x.retry ≡ true) × (h.x.retrans ≡ k) × (h.w.limit ≡ l)

  module _ (e : Err) (w : World) (x : Exception) (b : is_busy e ≡ true)
      (s : answers.slept ≡ no_signal) where
    slept_zero : nfs4_delay x.interruptible answers.slept ≡ success 0
    slept_zero = ap (nfs4_delay x.interruptible) s ∙ nfs4_delay-no_signal x.interruptible

    -- What the round does is given by what the limit says.
    handle_exception_by_limit :
        (P : Handling → Type 0) (r : Code × ℕ)
        → exception_should_retrans w.limit x.retrans ≡ r
        → ((h : Handling) → h.w.limit ≡ w.limit → P (delay_within types hz r (success 0) h))
        → P (handle_exception types hz answers (fail e) w x)
    handle_exception_by_limit P r q f =
        let (w', l, busy) = handle_exception_busy e w x b in
        let h = delayed types answers w' (cleared types answers hz x) in
        subst P
          (sym (
            busy
            ∙ ap
                (λ l.
                  delay_within types hz (exception_should_retrans l x.retrans)
                    (nfs4_delay x.interruptible answers.slept) h)
                l
            ∙ ap (λ r. delay_within types hz r (nfs4_delay x.interruptible answers.slept) h) q
            ∙ ap (λ c. delay_within types hz r c h) slept_zero))
          (f h l)

    busy_unlimited :
        limit_of w.limit ≡ none
        → Retried w.limit x.retrans (handle_exception types hz answers (fail e) w x)
    unfolding exception_should_retrans
    busy_unlimited l =
        handle_exception_by_limit (Retried w.limit x.retrans) (success 0, x.retrans)
          (ap (λ o. should_retrans_at o x.retrans) l) (λ h m. (refl, refl, m))

    busy_left :
        (n : ℕ)
        → limit_of w.limit ≡ some n
        → x.retrans < n
        → n < 2 ^ 16
        → Retried w.limit (x.retrans + 1) (handle_exception types hz answers (fail e) w x)
    unfolding exception_should_retrans
    busy_left n l k m =
        handle_exception_by_limit (Retried w.limit (x.retrans + 1)) (success 0, x.retrans + 1)
          (ap (λ o. should_retrans_at o x.retrans) l ∙ should_retrans_at_left n x.retrans k m)
          (λ h m. (refl, refl, m))

    busy_spent :
        (n : ℕ)
        → limit_of w.limit ≡ some n
        → n ≤ x.retrans
        → EndsWith Err.eagain (some (handle_exception types hz answers (fail e) w x))
    unfolding exception_should_retrans
    busy_spent n l k =
        handle_exception_by_limit (λ h. EndsWith Err.eagain (some h))
          (fail Err.eagain, (x.retrans + 1) % 2 ^ 16)
          (ap (λ o. should_retrans_at o x.retrans) l ∙ should_retrans_at_spent n x.retrans k)
          (λ h m. (refl, refl))

lt_or_eq : (k n : ℕ) → k ≤ n → (k < n) ⊎ (k ≡ n)
lt_or_eq k n h = ground arith

module _ (types : StateidTypes) (hz : ℕ) where
  if_retry :
      (b : Bool) (rest : Option Handling) (h : Handling) (P : Option Handling → Type 0)
      → b ≡ true
      → P rest
      → P (if b then rest else some h)
  if_retry true rest h P e p = p
  if_retry false rest h P e p = cc

  if_ended :
      (b : Bool) (rest : Option Handling) (h : Handling) (P : Option Handling → Type 0)
      → b ≡ false
      → P (some h)
      → P (if b then rest else some h)
  if_ended true rest h P e p = cc
  if_ended false rest h P e p = p

  -- On a mount without `softerr` the loop goes on as long as the server is busy.
  call_loop_unlimited :
      (rounds : List (Code × Answers)) (w : World) (x : Exception)
      → All IsBusy rounds
      → limit_of w.limit ≡ none
      → call_loop types hz rounds w x ≡ none
  unfolding call_loop
  call_loop_unlimited [] w x a l = refl
  call_loop_unlimited ((success n, answers) ∷ rounds) w x (a, others) l = cc
  call_loop_unlimited ((fail e, answers) ∷ rounds) w x ((b, s), others) l =
      let h = handle_exception types hz answers (fail e) w x in
      let (retry, count, same) = busy_unlimited types hz answers e w x b s l in
      if_retry h.x.retry (call_loop types hz rounds h.w h.x) h (λ o. o ≡ none) retry
        (call_loop_unlimited rounds h.w h.x others (ap limit_of same ∙ l))

  -- On a mount with `softerr` and the limit n below 2 ^ 16, a loop that has retried k ≤ n times, on a
  -- server that is busy in every round, without signals, goes on for n - k rounds more and gives up
  -- with EAGAIN in the next.
  pub call_loop_limited :
      (rounds : List (Code × Answers)) (w : World) (x : Exception) (n : ℕ)
      → All IsBusy rounds
      → limit_of w.limit ≡ some n
      → x.retrans ≤ n
      → n < 2 ^ 16
      → (x.retrans + length rounds ≤ n → call_loop types hz rounds w x ≡ none)
        × (n < x.retrans + length rounds → EndsWith Err.eagain (call_loop types hz rounds w x))
  unfolding call_loop
  call_loop_limited [] w x n a l k m = (λ _. refl, λ more. absurd (omega arith))
  call_loop_limited ((success c, answers) ∷ rounds) w x n (a, others) l k m = cc
  call_loop_limited ((fail e, answers) ∷ rounds) w x n ((b, s), others) l k m =
      let h = handle_exception types hz answers (fail e) w x in
      let rest = call_loop types hz rounds h.w h.x in
      elim (lt_or_eq x.retrans n k) [
        | inl less ↦
            let (retry, count, same) = busy_left types hz answers e w x b s n l less m in
            let (few, many) =
              call_loop_limited rounds h.w h.x n others (ap limit_of same ∙ l)
                (omega (arith, count)) m in
            (
              λ p. if_retry h.x.retry rest h (λ o. o ≡ none) retry (few (omega (arith, count))),
              λ p.
                  if_retry h.x.retry rest h (EndsWith Err.eagain) retry
                    (many (omega (arith, count))),
            )
        | inr same ↦
            let spent = busy_spent types hz answers e w x b s n l (omega arith) in
            (
              λ p. absurd (omega arith),
              λ p. if_ended h.x.retry rest h (EndsWith Err.eagain) (spent.1) spent,
            )
      ]

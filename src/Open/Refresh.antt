-- ===== src/Open/Refresh.antt =====
-- Waiting for the stateid of an OPEN after NFS4ERR_OLD_STATEID.
use mynfs.Base.{
  ℕ, ◌≡◌, refl, if◌then◌else◌, Bool, true, false, Option, none, some, List, [], ◌∷◌, zero, suc,
  replicate, add32, arith,
}
use mynfs.Open.Stateid.{Stateid, is_newer}
use mynfs.Open.State.{OpenState}
use mynfs.Open.Update.{Wait, Waited, woken, timed_out, killed}
use mynfs.Open.Close.{Refresh, give_up, catch_up, wait, refresh_test, refresh_open_old_stateid}

-- A wait during which nothing happens and that ends by its timeout.
abbrev pub idle_wait : Wait
idle_wait = record { ended = timed_out; meanwhile = λ s. s }

-- The same, ended by a wake-up.
abbrev pub woken_wait : Wait
woken_wait = record { ended = woken; meanwhile = λ s. s }

refresh_test-newer :
    (dst t : Stateid) (s : OpenState)
    → refresh_test dst s ≡ catch_up t
    → (t.other ≡ dst.other) × (is_newer t dst ≡ true)
unfolding refresh_test is_newer
refresh_test-newer dst t s h = ground arith

bumped-newer : (dst : Stateid) → is_newer (record dst { seqid = add32 dst.seqid 1 }) dst ≡ true
unfolding is_newer
bumped-newer dst = ground arith

-- Whether one of the waits ends the loop: it is killed, or times out before the status is cleared.
abbrev pub ends : Bool → List Wait → Bool
ends cleared [] = false
ends cleared (w ∷ ws) = elim w.ended [
  | woken ↦ ends true ws
  | timed_out ↦ if cleared then ends true ws else true
  | killed ↦ true
]

-- The answers allowed; none at all only if no wait ends the loop.
abbrev pub Retries : Stateid → Bool → Option (Stateid × Bool) → Type 0
Retries dst ended none = ended ≡ false
Retries dst ended (some (t, false)) = t ≡ dst
Retries dst ended (some (t, true)) = (t.other ≡ dst.other) × (is_newer t dst ≡ true)

-- One round, by what the test of the state finds.
round-Retries :
    (dst : Stateid) (s : OpenState) (found : Refresh) (b : Bool) (waited : Option (Stateid × Bool))
    → refresh_test dst s ≡ found
    → Retries dst b waited
    → Retries dst b
        (elim found [ give_up ↦ some (dst, false) | catch_up t ↦ some (t, true) | wait ↦ waited ])
round-Retries dst s give_up b waited h k = refl
round-Retries dst s (catch_up t) b waited h k = refresh_test-newer dst t s h
round-Retries dst s wait b waited h k = k

waited-Retries :
    (dst : Stateid) (ended : Waited) (cleared b : Bool) (next : Option (Stateid × Bool))
    → Retries dst b next
    → Retries dst
        (elim ended [ woken ↦ b | timed_out ↦ if cleared then b else true | killed ↦ true ])
        (elim ended [
          | woken ↦ next
          | timed_out ↦
              if cleared then next else some (record dst { seqid = add32 dst.seqid 1 }, true)
          | killed ↦ some (dst, false)
        ])
waited-Retries dst woken cleared b next h = h
waited-Retries dst timed_out true b next h = h
waited-Retries dst timed_out false b next h = (refl, bumped-newer dst)
waited-Retries dst killed cleared b next h = refl

-- The call is retried only with a newer stateid of the same series; otherwise the stateid is left as
-- it was. The loop has an answer wherever one of the waits is killed, or the first of them times out
-- and no earlier wait has cleared the status. This holds whatever others do to the state meanwhile.
pub refresh_open_old_stateid-Retries :
    (cleared : Bool) (dst : Stateid) (waits : List Wait) (s : OpenState)
    → Retries dst (ends cleared waits) (refresh_open_old_stateid cleared dst waits s)
unfolding refresh_open_old_stateid
refresh_open_old_stateid-Retries cleared dst [] s =
    round-Retries dst s (refresh_test dst s) false none refl refl
refresh_open_old_stateid-Retries cleared dst (w ∷ ws) s =
    round-Retries dst s (refresh_test dst s) _ _ refl (
      waited-Retries dst w.ended cleared _ _ (
        refresh_open_old_stateid-Retries true dst ws
          (w.meanwhile (record s { change_wait = true }))))

still_waits :
    (dst : Stateid) (s : OpenState)
    → refresh_test dst s ≡ wait
    → refresh_test dst (record s { change_wait = true }) ≡ wait
unfolding refresh_test
still_waits dst s h = h

timeouts_pass :
    (dst : Stateid) (s : OpenState) (n : ℕ)
    → refresh_test dst s ≡ wait
    → refresh_open_old_stateid true dst (replicate n idle_wait) s ≡ none
unfolding refresh_open_old_stateid
timeouts_pass dst s zero h = rw (h, refresh_open_old_stateid) refl
timeouts_pass dst s (suc n) h =
    rw (h, refresh_open_old_stateid)
      (timeouts_pass dst (record s { change_wait = true }) n (still_waits dst s h))

-- Where the state has nothing newer, a first wait that times out ends the loop, with the next number;
-- but once a wait was ended by a wake-up, waits that time out never do, however many there are.
pub refresh_timeout_lost :
    (dst : Stateid) (s : OpenState) (n : ℕ)
    → refresh_test dst s ≡ wait
    → (refresh_open_old_stateid false dst (replicate (suc n) idle_wait) s
        ≡ some (record dst { seqid = add32 dst.seqid 1 }, true))
      × (refresh_open_old_stateid false dst (woken_wait ∷ replicate n idle_wait) s ≡ none)
unfolding refresh_open_old_stateid
refresh_timeout_lost dst s n h = (
  rw (h, refresh_open_old_stateid) refl,
  rw (h, refresh_open_old_stateid)
      (timeouts_pass dst (record s { change_wait = true }) n (still_waits dst s h)),
)

-- ===== src/Open/Examples.antt =====
-- The theorems about the open state applied to small states.
use mynfs.Base.{ℕ, ◌≡◌, refl, ltb, true, false, ◌&&◌, ◌||◌, some, none, [], ◌∷◌, replicate, arith}
use mynfs.Open.Stateid.{Stateid, is_newer}
use mynfs.Open.State.{Fmode, OpenState}
use mynfs.Open.Update.{Wait, woken, set_open_stateid_locked, update_open_stateid}
use mynfs.Open.Close.{close_mode, clear_open_stateid_locked, refresh_test, refresh_open_old_stateid}
use mynfs.Open.Opened.{IsReady, AfterUpdate, update_open_stateid-IsCounted}
use mynfs.Open.Round.{close_round}
use mynfs.Open.Order.{Ordered, last_seen, set_open_stateid-Ordered}
use mynfs.Open.Refresh.{
  idle_wait, woken_wait, ends, Retries, refresh_open_old_stateid-Retries, refresh_timeout_lost,
}

abbrev stateid_of : ℕ → Stateid
stateid_of n = record { kind = 1; seqid = n; other = 77 }

abbrev read_mode : Fmode
read_mode = record { read = true; write = false }

abbrev write_mode : Fmode
write_mode = record { read = false; write = true }

-- Opened once to read and once to write.
abbrev open_state : OpenState
open_state = record {
  name = 3;
  so_states = 3 ∷ 4 ∷ [];
  n_rdonly = 1;
  n_wronly = 1;
  n_rdwr = 0;
  mode = record { read = true; write = true };
  stateid = stateid_of 5;
  open_stateid = stateid_of 5;
  delegated = false;
  is_open = true;
  o_rdonly = true;
  o_wronly = true;
  o_rdwr = false;
  reclaim_reboot = false;
  reclaim_nograce = false;
  recovery_failed = false;
  change_wait = false;
  owner_reclaim_nograce = false;
  client_reclaim_nograce = false;
  wakeups = 0;
}

-- The same after a close of the writer.
abbrev reader_left : OpenState
reader_left = record open_state { n_wronly = 0; mode = read_mode }

open_state-IsReady : IsReady open_state
open_state-IsReady = record {
  counted = record { read = refl; write = refl };
  roomy = record { rdonly = omega arith; wronly = omega arith; rdwr = omega arith };
}

update_open_stateid-IsCounted_example :
    AfterUpdate read_mode (
      update_open_stateid true
        (idle_wait ∷ [])
        none
        open_state
        (some (stateid_of 7))
        none
        read_mode)
update_open_stateid-IsCounted_example =
    update_open_stateid-IsCounted true (idle_wait ∷ []) none open_state (some (stateid_of 7)) none
      read_mode (λ s v. v, tt) open_state-IsReady

close_round_example :
    let t =
      clear_open_stateid_locked reader_left (some (stateid_of 6)) (close_mode reader_left).0 in
    (t.o_rdonly ≡ (reader_left.o_rdonly && ltb 0 reader_left.n_rdonly))
    × (t.o_wronly ≡ (reader_left.o_wronly && ltb 0 reader_left.n_wronly))
    × (t.o_rdwr ≡ false)
    × (t.is_open ≡ (reader_left.is_open && (t.o_rdonly || t.o_wronly)))
    × (t.open_stateid ≡ stateid_of 6)
unfolding close_mode is_newer
close_round_example = close_round reader_left (stateid_of 6) refl refl

set_open_stateid-Ordered_example :
    Ordered
      (stateid_of 7)
      (last_seen (stateid_of 7) false (idle_wait ∷ []) open_state)
      (set_open_stateid_locked true (stateid_of 7) false (idle_wait ∷ []) open_state)
set_open_stateid-Ordered_example =
    set_open_stateid-Ordered (stateid_of 7) false (idle_wait ∷ []) open_state

-- A wait during which another OPEN brings number 6.
abbrev opened_meanwhile : Wait
opened_meanwhile = record {
  ended = woken;
  meanwhile = λ s. record s { open_stateid = stateid_of 6 };
}

-- The call is retried with number 6.
retried_with_6 :
    refresh_open_old_stateid false (stateid_of 5) (opened_meanwhile ∷ idle_wait ∷ []) open_state
    ≡ some (stateid_of 6, true)
unfolding refresh_open_old_stateid is_newer refresh_test
retried_with_6 = refl

refresh_open_old_stateid-Retries_example :
    Retries
      (stateid_of 5)
      (ends false (opened_meanwhile ∷ idle_wait ∷ []))
      (refresh_open_old_stateid false (stateid_of 5) (opened_meanwhile ∷ idle_wait ∷ []) open_state)
refresh_open_old_stateid-Retries_example =
    refresh_open_old_stateid-Retries false (stateid_of 5) (opened_meanwhile ∷ idle_wait ∷ [])
      open_state

refresh_timeout_lost_example :
    (refresh_open_old_stateid false (stateid_of 5) (replicate 3 idle_wait) open_state
      ≡ some (stateid_of 6, true))
    × (refresh_open_old_stateid false (stateid_of 5) (woken_wait ∷ replicate 2 idle_wait) open_state
        ≡ none)
unfolding refresh_test
refresh_timeout_lost_example = refresh_timeout_lost (stateid_of 5) open_state 2 refl

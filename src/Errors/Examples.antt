-- ===== src/Errors/Examples.antt =====
-- The theorems about errors applied to a client that is refused, and to one whose server is busy.
use mynfs.Base.{
  ◌≤◌, ◌<◌, ◌≡◌, ◌⊎◌, refl, true, false, none, some, List, [], ◌∷◌, ◌^◌, min, ◌*◌, arith,
}
use mynfs.Errors.Codes.{Err, Code, success, fail, map_errors, map_err}
use mynfs.Errors.Delay.{no_signal, update_delay, retry_min, retry_max}
use mynfs.Errors.Exception.{StateidTypes, Event, World, Exception, Answers, Handling}
use mynfs.Errors.Handle.{fresh_exception, call_loop, wait_clnt_recover, async_handle_error}
use mynfs.Errors.Async.{async_handle_error-restarts}
use mynfs.Errors.Switch.{is_kernel_error}
use mynfs.Errors.Settled.{call_loop-is_kernel_error}
use mynfs.Errors.Backoff.{after_delays, update_delay-after_delays}
use mynfs.Errors.Softerr.{EndsWith, call_loop_limited}

abbrev stateid_types : StateidTypes
stateid_types = record { open_type = 2; lock_type = 3; delegation_type = 4 }

-- A mount with `softerr` and two retries.
abbrev client : World
client = record {
  limit = record { softerr = true; delay_retrans = some 2 };
  uidgid_nomap = true;
  persistent_fh = false;
  mig_failed = false;
  mig_in_transition = false;
  lease_expired = false;
  check_lease = false;
  moved_set = false;
  lease_moved_set = false;
  state = none;
  events = [];
}

abbrev fresh : Exception
fresh = fresh_exception stateid_types 100 none

abbrev answers : Answers
answers = record {
  returned = false;
  slept = no_signal;
  waited = success 0;
  cons_state = success 0;
  failed_migration = false;
}

-- The lease is recovered, the mapping of names turned on again, and the name refused at last.
abbrev refusals : List (Code × Answers)
refusals =
    (fail Err.stale_clientid, answers)
    ∷ (fail Err.badname, answers)
    ∷ (fail Err.badname, answers)
    ∷ []

abbrev refused_handling : Handling
refused_handling = record {
  w = record client {
    uidgid_nomap = false;
    check_lease = true;
    events = Event.schedule_state_manager ∷ [];
  };
  x = fresh;
  ret = fail Err.einval;
}

refusals-refused : call_loop stateid_types 100 refusals client fresh ≡ some refused_handling
unfolding call_loop map_errors map_err wait_clnt_recover
refusals-refused = refl

call_loop-is_kernel_error_example : is_kernel_error refused_handling.ret ≡ true
call_loop-is_kernel_error_example =
    call_loop-is_kernel_error stateid_types 100 refusals client fresh refused_handling
      ((refl, refl, refl), ((refl, refl, refl), ((refl, refl, refl), tt))) refusals-refused

-- Every answer is to wait.
abbrev waits : List (Code × Answers)
waits = (fail Err.delay, answers) ∷ (fail Err.grace, answers) ∷ (fail Err.delay, answers) ∷ []

call_loop_limited_example :
    (3 ≤ 2 → call_loop stateid_types 100 waits client fresh ≡ none)
    × (2 < 3 → EndsWith Err.eagain (call_loop stateid_types 100 waits client fresh))
call_loop_limited_example =
    call_loop_limited stateid_types 100 waits client fresh 2
      ((refl, refl), ((refl, refl), ((refl, refl), tt))) refl (omega arith) (omega arith)

update_delay-after_delays_example :
    (update_delay 100 (some (after_delays stateid_types 100 3 fresh).timeout)).0
    ≡ min (retry_min 100 * 2 ^ 3) (retry_max 100)
update_delay-after_delays_example =
    update_delay-after_delays stateid_types 100 3 fresh refl (omega arith)

async_handle_error-restarts_example :
    let (w, status, timeout, result) =
      async_handle_error stateid_types 100 answers (fail Err.delay) (some 0) client in
    (result ≡ fail Err.eagain) ⊎ (is_kernel_error status ≡ true)
async_handle_error-restarts_example =
    async_handle_error-restarts stateid_types 100 answers Err.delay (some 0) client

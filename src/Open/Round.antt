-- ===== src/Open/Round.antt =====
-- A close, from the count that goes down to the reply of the server.
use mynfs.Base.{◌<◌, ◌≡◌, ltb, true, false, ◌&&◌, ◌||◌, some, arith}
use mynfs.Open.Stateid.{Stateid, is_newer}
use mynfs.Open.State.{Fmode, OpenState, state_set_mode_locked}
use mynfs.Open.Close.{drop_open, close_state, close_mode, clear_open_stateid_locked}

-- Where a close decides to call the server, and recovery has not failed, the call that is prepared
-- does change the server's state, and leaves the server no mode that the remaining opens lack.
close_state-close_mode :
    (s : OpenState) (fmode : Fmode)
    → s.recovery_failed ≡ false
    → (close_state s fmode).1 ≡ true
    → let t = (close_state s fmode).0 in
      let m = (close_mode t).0 in
      ((close_mode t).1 ≡ true)
      × (m.read ≡ true → t.mode.read ≡ true)
      × (m.write ≡ true → t.mode.write ≡ true)
unfolding close_state close_mode drop_open state_set_mode_locked
close_state-close_mode s fmode v h = ground arith

-- The reply to the call that was prepared, where the open state did not change in between: with a
-- newer stateid, the state is left with exactly the modes it had on the server and still has opens
-- of, is open as long as there is one, and carries the new stateid.
pub close_round :
    (s : OpenState) (stateid : Stateid)
    → (close_mode s).1 ≡ true
    → is_newer stateid s.open_stateid ≡ true
    → let t = clear_open_stateid_locked s (some stateid) (close_mode s).0 in
      (t.o_rdonly ≡ (s.o_rdonly && ltb 0 s.n_rdonly))
      × (t.o_wronly ≡ (s.o_wronly && ltb 0 s.n_wronly))
      × (t.o_rdwr ≡ false)
      × (t.is_open ≡ (s.is_open && (t.o_rdonly || t.o_wronly)))
      × (t.open_stateid ≡ stateid)
unfolding close_mode clear_open_stateid_locked
close_round s stateid c n = ground arith

-- A reply that comes late, with a stateid of the same series that is not newer, because an OPEN ran
-- ahead of it: every mode with opens is flagged as open on the server again, and the stateid stays.
close_raced :
    (s : OpenState) (stateid : Stateid) (fmode : Fmode)
    → stateid.other ≡ s.open_stateid.other
    → is_newer stateid s.open_stateid ≡ false
    → let t = clear_open_stateid_locked s (some stateid) fmode in
      (0 < s.n_rdonly → t.o_rdonly ≡ true)
      × (0 < s.n_wronly → t.o_wronly ≡ true)
      × (0 < s.n_rdwr → t.o_rdwr ≡ true)
      × (t.open_stateid ≡ s.open_stateid)
unfolding clear_open_stateid_locked
close_raced s stateid fmode o n = ground arith

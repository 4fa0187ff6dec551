-- ===== src/Open/Opened.antt =====
-- An OPEN that is taken into the state is counted.
use mynfs.Base.{
  ◌-◌, ◌^◌, ◌<◌, ◌≡◌, refl, if◌then◌else◌, Bool, true, false, not, ◌&&◌, ◌||◌, Option, none, some,
  List, [], ◌∷◌, All, arith,
}
use mynfs.Open.Stateid.{Stateid, match_other, is_newer}
use mynfs.Open.State.{
  Fmode, OpenState, update_open_stateflags, count_open, joined, stateid_is_sequential,
}
use mynfs.Open.Update.{
  Wait, is_woken, take_open_stateid, set_open_stateid_locked, set_open_flags, Delegation, usable,
  set_delegation_if, state_set_delegation, finish_update, after_open, Updated, update_open_stateid,
}
use mynfs.Open.Counts.{IsCounted, opens_of, set_mode-mode, update_open_stateflags-IsCounted}

-- One more open can be counted in each mode.
pub record IsRoomy (s : OpenState) : Type 0 where
  pub rdonly : s.n_rdonly < 2 ^ 32 - 1
  pub wronly : s.n_wronly < 2 ^ 32 - 1
  pub rdwr : s.n_rdwr < 2 ^ 32 - 1

pub record IsReady (s : OpenState) : Type 0 where
  pub counted : IsCounted s
  pub roomy : IsRoomy s

-- What others do during a wait keeps the state ready.
abbrev pub IsPolite : Wait → Type 0
IsPolite w = (s : OpenState) → IsReady s → IsReady (w.meanwhile s)

-- Of the same counts and mode.
abbrev SameCounts : OpenState → OpenState → Type 0
SameCounts s t =
    (t.n_rdonly ≡ s.n_rdonly)
    × (t.n_wronly ≡ s.n_wronly)
    × (t.n_rdwr ≡ s.n_rdwr)
    × (t.mode ≡ s.mode)

SameCounts-IsReady : (s t : OpenState) → SameCounts s t → IsReady s → IsReady t
SameCounts-IsReady s t (a, b, c, m) v = record {
  counted = record { read = rw (m, a, c) v.counted.read; write = rw (m, b, c) v.counted.write };
  roomy = record {
    rdonly = rw a v.roomy.rdonly;
    wronly = rw b v.roomy.wronly;
    rdwr = rw c v.roomy.rdwr;
  };
}

take-SameCounts : (s : OpenState) (stateid : Stateid) → SameCounts s (take_open_stateid s stateid).0
unfolding take_open_stateid
take-SameCounts s stateid = ground arith

abbrev ReadyOption : Option (OpenState × Option Stateid) → Type 0
ReadyOption none = Unit {0}
ReadyOption (some (s, freeme)) = IsReady s

-- The chain of tests of the loop, where every end is ready.
chosen-Ready :
    (sequential failed old has_session : Bool) (x y z : Option (OpenState × Option Stateid))
    → ReadyOption x
    → ReadyOption y
    → ReadyOption z
    → ReadyOption (
        if sequential
        then x
        else if failed
        then if old then y else x
        else if has_session
        then z
        else x)
chosen-Ready true failed old has_session x y z a b c = a
chosen-Ready false true true has_session x y z a b c = b
chosen-Ready false true false has_session x y z a b c = a
chosen-Ready false false old true x y z a b c = c
chosen-Ready false false old false x y z a b c = a

taken-IsReady :
    (s : OpenState) (stateid : Stateid) → IsReady s → IsReady (take_open_stateid s stateid).0
taken-IsReady s stateid v =
    SameCounts-IsReady s (take_open_stateid s stateid).0 (take-SameCounts s stateid) v

waiting-IsReady : (s : OpenState) → IsReady s → IsReady (record s { change_wait = true })
waiting-IsReady s v =
    SameCounts-IsReady s (record s { change_wait = true }) (refl, refl, refl, refl) v

set_open_stateid_locked-IsReady :
    (has_session : Bool) (stateid : Stateid) (failed : Bool) (waits : List Wait) (s : OpenState)
    → All IsPolite waits
    → IsReady s
    → ReadyOption (set_open_stateid_locked has_session stateid failed waits s)
unfolding set_open_stateid_locked
set_open_stateid_locked-IsReady has_session stateid failed [] s h v =
    chosen-Ready (stateid_is_sequential s stateid) failed
      (match_other stateid s.open_stateid && not (is_newer stateid s.open_stateid)) has_session
      (some (take_open_stateid s stateid)) (some (s, none)) none (taken-IsReady s stateid v) v tt
set_open_stateid_locked-IsReady has_session stateid failed (w ∷ ws) s (p, h) v =
    chosen-Ready (stateid_is_sequential s stateid) failed
      (match_other stateid s.open_stateid && not (is_newer stateid s.open_stateid)) has_session
      (some (take_open_stateid s stateid)) (some (s, none))
      (set_open_stateid_locked has_session stateid (not (is_woken w.ended)) ws
        (w.meanwhile (record s { change_wait = true })))
      (taken-IsReady s stateid v) v
      (set_open_stateid_locked-IsReady has_session stateid (not (is_woken w.ended)) ws
        (w.meanwhile (record s { change_wait = true })) h
        (p (record s { change_wait = true }) (waiting-IsReady s v)))

-- The mode has every bit of `fmode`.
abbrev pub Includes : Fmode → Fmode → Type 0
Includes m fmode = (fmode.read ≡ true → m.read ≡ true) × (fmode.write ≡ true → m.write ≡ true)

abbrev pub AfterUpdate : Fmode → Option Updated → Type 0
AfterUpdate fmode none = Unit {0}
AfterUpdate fmode (some u) = IsCounted u.result × (u.ret ≡ true → Includes u.result.mode fmode)

stateflags-Includes :
    (s : OpenState) (fmode : Fmode) → Includes (update_open_stateflags s fmode).mode fmode
unfolding update_open_stateflags count_open
stateflags-Includes s fmode =
    rw (set_mode-mode (count_open s fmode) (joined s.mode fmode)) (ground arith)

roomy-opens_of : (s : OpenState) (fmode : Fmode) → IsRoomy s → opens_of s fmode < 2 ^ 32 - 1
roomy-opens_of s fmode r = let a = r.rdonly in let b = r.wronly in let c = r.rdwr in ground arith

set_delegation_if-SameCounts :
    (use_it : Bool) (d : Option Delegation) (s : OpenState)
    → SameCounts s (set_delegation_if use_it d s)
unfolding state_set_delegation
set_delegation_if-SameCounts true (some d) s = (refl, refl, refl, refl)
set_delegation_if-SameCounts true none s = (refl, refl, refl, refl)
set_delegation_if-SameCounts false d s = (refl, refl, refl, refl)

IsCounted-if :
    (ret : Bool) (s : OpenState) (fmode : Fmode)
    → IsReady s
    → let t = if ret then update_open_stateflags s fmode else s in
      IsCounted t × (ret ≡ true → Includes t.mode fmode)
IsCounted-if true s fmode v = (
  update_open_stateflags-IsCounted s fmode (roomy-opens_of s fmode v.roomy) v.counted,
  λ h. stateflags-Includes s fmode,
)
IsCounted-if false s fmode v = (v.counted, λ h. cc)

finish_update-AfterUpdate :
    (deleg_cur : Option Delegation)
    → (given : Option Stateid) (fmode : Fmode) (opened : Bool) (s : OpenState)
      (freeme : Option Stateid)
    → IsReady s
    → AfterUpdate fmode (some (finish_update deleg_cur given fmode opened (s, freeme)))
unfolding finish_update
finish_update-AfterUpdate deleg_cur given fmode opened s freeme v =
    let use_it = usable deleg_cur given fmode in
    let t = set_delegation_if use_it deleg_cur s in
    IsCounted-if (opened || use_it) t fmode
      (SameCounts-IsReady s t (set_delegation_if-SameCounts use_it deleg_cur s) v)

flags-IsReady : (fmode : Fmode) (s : OpenState) → IsReady s → IsReady (set_open_flags fmode s)
unfolding set_open_flags
flags-IsReady fmode s v = SameCounts-IsReady s (set_open_flags fmode s) (refl, refl, refl, refl) v

after_open-AfterUpdate :
    (deleg_cur : Option Delegation)
    → (given : Option Stateid) (fmode : Fmode) (r : Option (OpenState × Option Stateid))
    → ReadyOption r
    → AfterUpdate fmode (after_open deleg_cur given fmode r)
after_open-AfterUpdate deleg_cur given fmode none v = tt
after_open-AfterUpdate deleg_cur given fmode (some (s, freeme)) v =
    finish_update-AfterUpdate deleg_cur given fmode true (set_open_flags fmode s) freeme
      (flags-IsReady fmode s v)

-- An open is taken into a state whose mode is the union of the modes it is open in, with room in the
-- counts, and the waits keep it so: then the mode of the result is again that union, and where the
-- return value tells that the open was taken, has every bit of the open's mode. This holds with or
-- without a stateid of the server and with or without a delegation.
pub update_open_stateid-IsCounted :
    (has_session : Bool) (waits : List Wait) (deleg_cur : Option Delegation) (s : OpenState)
    → (open_stateid given : Option Stateid) (fmode : Fmode) → All IsPolite waits
    → IsReady s
    → AfterUpdate fmode (update_open_stateid has_session waits deleg_cur s open_stateid given fmode)
unfolding update_open_stateid
update_open_stateid-IsCounted has_session waits deleg_cur s none given fmode h v =
    finish_update-AfterUpdate deleg_cur given fmode false s none v
update_open_stateid-IsCounted has_session waits deleg_cur s (some stateid) given fmode h v =
    after_open-AfterUpdate deleg_cur given fmode
      (set_open_stateid_locked has_session stateid false waits s)
      (set_open_stateid_locked-IsReady has_session stateid false waits s h v)

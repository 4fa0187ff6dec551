-- ===== src/Open/Order.antt =====
-- The open stateid follows the order of the server.
use mynfs.Base.{
  ◌≡◌, refl, if◌then◌else◌, Bool, true, false, not, ◌&&◌, ◌⊎◌, inl, inr, Option, none, some, List,
  [], ◌∷◌, Bool-cases, arith,
}
use mynfs.Open.Stateid.{Stateid, match_other, is_newer, is_next}
use mynfs.Open.State.{OpenState, stateid_is_sequential}
use mynfs.Open.Update.{Wait, is_woken, take_open_stateid, set_open_stateid_locked}

-- The state `s` was left with the stateid that it had or with the new one, and of a stateid of the
-- same series only with a newer one.
abbrev pub Follows : Stateid → OpenState → OpenState → Type 0
Follows stateid u s =
    (s.open_stateid ≡ u.open_stateid)
    ⊎ ((s.open_stateid ≡ stateid)
        × ((u.is_open && match_other stateid u.open_stateid) ≡ true
            → is_newer stateid u.open_stateid ≡ true))

take-open_stateid :
    (s : OpenState) (stateid : Stateid) → (take_open_stateid s stateid).0.open_stateid ≡ stateid
unfolding take_open_stateid
take-open_stateid s stateid = ground arith

abbrev pub Ordered : Stateid → OpenState → Option (OpenState × Option Stateid) → Type 0
Ordered stateid u none = Unit {0}
Ordered stateid u (some (s, freeme)) = Follows stateid u s

-- What the loop saw last: the state at the start, or after the last wait.
abbrev pub last_seen : Stateid → Bool → List Wait → OpenState → OpenState
last_seen stateid failed [] s = s
last_seen stateid true (w ∷ ws) s = s
last_seen stateid false (w ∷ ws) s =
    let next =
      last_seen stateid (not (is_woken w.ended)) ws
        (w.meanwhile (record s { change_wait = true })) in
    if stateid_is_sequential s stateid then s else next

is_next-is_newer : (s t : Stateid) → is_next s t ≡ true → is_newer t s ≡ true
unfolding is_next is_newer
is_next-is_newer s t h = ground arith

sequential-is_newer :
    (s : OpenState) (stateid : Stateid)
    → stateid_is_sequential s stateid ≡ true
    → (s.is_open && match_other stateid s.open_stateid) ≡ true
    → is_newer stateid s.open_stateid ≡ true
unfolding stateid_is_sequential
sequential-is_newer s stateid h k = ground (arith, is_next-is_newer s.open_stateid stateid)

-- The choice that the loop makes at a state where it stops.
stopped :
    (stateid : Stateid) (u : OpenState) (sequential old : Bool)
    → (sequential ≡ true
        → (u.is_open && match_other stateid u.open_stateid) ≡ true
        → is_newer stateid u.open_stateid ≡ true)
    → (match_other stateid u.open_stateid && not (is_newer stateid u.open_stateid)) ≡ old
    → Ordered stateid u (
        if sequential
        then some (take_open_stateid u stateid)
        else if old
        then some (u, none)
        else some (take_open_stateid u stateid))
stopped stateid u true old h k = inr (take-open_stateid u stateid, h refl)
stopped stateid u false true h k = inl refl
stopped stateid u false false h k = inr (take-open_stateid u stateid, λ m. ground arith)

-- On a session, an OPEN's stateid is taken only over a state that it follows: where the open stateid
-- of the state last seen is of the same series, the stateid is newer, or the state keeps its own.
-- This holds whatever others do to the state during the waits.
pub set_open_stateid-Ordered :
    (stateid : Stateid) (failed : Bool) (waits : List Wait) (s : OpenState)
    → Ordered stateid
        (last_seen stateid failed waits s)
        (set_open_stateid_locked true stateid failed waits s)
unfolding set_open_stateid_locked
set_open_stateid-Ordered stateid true [] s =
    stopped stateid s (stateid_is_sequential s stateid) _ (sequential-is_newer s stateid) refl
set_open_stateid-Ordered stateid true (w ∷ ws) s =
    stopped stateid s (stateid_is_sequential s stateid) _ (sequential-is_newer s stateid) refl
set_open_stateid-Ordered stateid false [] s = elim (Bool-cases (stateid_is_sequential s stateid)) [
  | inl e ↦ rw e (inr (take-open_stateid s stateid, sequential-is_newer s stateid e))
  | inr e ↦ rw e tt
]
set_open_stateid-Ordered stateid false (w ∷ ws) s =
    elim (Bool-cases (stateid_is_sequential s stateid)) [
      | inl e ↦ rw e (inr (take-open_stateid s stateid, sequential-is_newer s stateid e))
      | inr e ↦ rw e (
          set_open_stateid-Ordered stateid (not (is_woken w.ended)) ws
            (w.meanwhile (record s { change_wait = true })))
    ]

-- ===== src/StatesManager/Asking.antt =====
-- src/robot/StatesManager: what "state set" does, up to the next check of the transitions.
use bally_os.Base.{
  ℕ, ◌≡◌, refl, sym, Bool, true, false, ◌&&◌, ◌||◌, List, map, arith, ◌==◌, if◌then◌else◌,
  Bool-cases, inl, inr, subst,
}
use bally_os.RobotSettings.Shell.{result_ok, result_error}
use bally_os.StateMachine.State
use bally_os.StateMachine.{Atomics, returns, request_state, take_request}
use bally_os.StateMachine.Names.{
  state_to_string, verify_state, upper, state_from_string-state_to_string,
}
use bally_os.StatesManager.{Robot, guard_debug, process_transition}
use bally_os.StatesManager.Shell.{set_state}

none_state-ne : (s : ℕ) → verify_state s ≡ true → (s == State.none_state) ≡ false
unfolding verify_state
none_state-ne s valid = ground arith

set_state-valid :
    (a : Atomics) (s : ℕ) (name : List ℕ)
    → verify_state s ≡ true
    → map upper name ≡ state_to_string s
    → ((set_state a name).0 ≡ (if a.locked then a else record a { requested_state = s }))
      × ((set_state a name).1 ≡ (if a.locked then result_error else result_ok))
unfolding set_state request_state
set_state-valid a s name valid named =
    let found = (state_from_string-state_to_string s name valid).1 named in
    elim (Bool-cases a.locked) [
      | inl e ↦ rw (found, none_state-ne s valid, e) (refl, refl)
      | inr e ↦ rw (found, none_state-ne s valid, e, valid) (refl, refl)
    ]

-- What the next check makes of a request for a valid state, when the machine is not locked.
process_transition-requested :
    (a : Atomics) (r : Robot) (current buttons s : ℕ)
    → verify_state s ≡ true
    → a.locked ≡ false
    → (process_transition current buttons (record a { requested_state = s }) r).0
      ≡ returns
          (if current == State.debug && (r.usb_active || r.ota_flashing) then State.debug else s)
unfolding process_transition guard_debug take_request
process_transition-requested a r current buttons s valid free =
    rw (free, none_state-ne s valid) (ground arith)

process_transition-taken :
    (a : Atomics) (r : Robot) (current buttons : ℕ)
    → (process_transition current buttons a r).1 ≡ record a { requested_state = State.none_state }
unfolding process_transition take_request
process_transition-taken a r current buttons = ground arith

process_transition-locked :
    (a : Atomics) (r : Robot) (current buttons : ℕ)
    → a.locked ≡ true
    → (process_transition current buttons a r).0 ≡ returns current
unfolding process_transition take_request
process_transition-locked a r current buttons held = rw held refl

-- The check after a request that the lock may have refused.
abbrev NextCheck : Atomics → Atomics → Robot → ℕ → ℕ → ℕ → Type 0
NextCheck a asked r current buttons s =
    ((process_transition current buttons asked r).1
      ≡ record a { requested_state = State.none_state })
    × ((process_transition current buttons asked r).0
        ≡ returns (
            if a.locked
            then current
            else if current == State.debug && (r.usb_active || r.ota_flashing)
            then State.debug
            else s))

check-NextCheck :
    (locked : Bool) (c q : ℕ) (r : Robot) (current buttons s : ℕ)
    → verify_state s ≡ true
    → let a : Atomics = record { current_state = c; requested_state = q; locked = locked } in
      NextCheck a (if locked then a else record a { requested_state = s }) r current buttons s
check-NextCheck true c q r current buttons s valid =
    let a : Atomics = record { current_state = c; requested_state = q; locked = true } in
    (
      process_transition-taken a r current buttons,
      process_transition-locked a r current buttons refl,
    )
check-NextCheck false c q r current buttons s valid =
    let a : Atomics = record { current_state = c; requested_state = q; locked = false } in
    (
      process_transition-taken (record a { requested_state = s }) r current buttons,
      process_transition-requested a r current buttons s valid refl,
    )

-- A command "state set" with the name of a valid state, in any case, succeeds exactly when the machine is
-- not locked. On the next check of the transitions, in any state and with any buttons, the request is gone
-- and nothing else of the machine's atomics has changed; the robot is told to stay when the machine is locked,
-- to stay in DEBUG when it is there and the USB host owns the card or a firmware write is in progress, and
-- otherwise to go to the state of that name.
pub set_state-process_transition :
    (a : Atomics) (r : Robot) (current buttons s : ℕ) (name : List ℕ)
    → verify_state s ≡ true
    → map upper name ≡ state_to_string s
    → ((set_state a name).1 ≡ (if a.locked then result_error else result_ok))
      × ((process_transition current buttons ((set_state a name).0) r).1
          ≡ record a { requested_state = State.none_state })
      × ((process_transition current buttons ((set_state a name).0) r).0
          ≡ returns (
              if a.locked
              then current
              else if current == State.debug && (r.usb_active || r.ota_flashing)
              then State.debug
              else s))
set_state-process_transition a r current buttons s name valid named =
    let (kept, result) = set_state-valid a s name valid named in
    let (gone, state) =
      subst (λ x. NextCheck a x r current buttons s) (sym kept)
        (check-NextCheck a.locked a.current_state a.requested_state r current buttons s valid) in
    (result, gone, state)

-- ===== src/StatesManager.antt =====
-- src/robot: the policy of the state machine. `process_transition` is what every state's `next_state`
-- calls, and each state has an action. What they read of the robot are two flags; what they do to
-- it is written down as a list of calls, the first one first.
pub mod Policy
pub mod Machine
pub mod Shell
pub mod Asking
mod Examples
mod AskingExamples
use Prim.Native.Nat.{bit_and}
use bally_os.Base.{
  ℕ, Bool, true, false, not, ◌&&◌, List, [], ◌∷◌, ◌++◌, Option, none, some, ◌==◌, if◌then◌else◌,
}
use bally_os.StateMachine.State
use bally_os.StateMachine.{Atomics, Outcome, returns, Behaviour, Entry, take_request}

-- A row of the table: from a state, with one of the buttons of a mask, to a state.
pub record Transition : Type 0 where
  pub current_state : ℕ
  pub button_mask : ℕ
  pub next_state : ℕ

abbrev row : ℕ → ℕ → ℕ → Transition
row from_state mask to_state = record {
  current_state = from_state;
  button_mask = mask;
  next_state = to_state;
}

abbrev pub transition_table : List Transition
transition_table =
    row State.wait 1 State.run
    ∷ row State.wait 2 State.calibrate
    ∷ row State.wait 4 State.debug
    ∷ row State.run 1 State.finish
    ∷ row State.debug 1 State.finish
    ∷ row State.finish 2 State.telemetry
    ∷ row State.finish 1 State.wait
    ∷ row State.error 7 State.telemetry
    ∷ []

-- The calls that the states make into the rest of the robot; those that log tell which text, not what the
-- calls before them gave.
pub data RobotCall : Type 0 where
  logs_request_dropped : ℕ → RobotCall
  logs_usb_owns_card : RobotCall
  logs_ota_in_progress : RobotCall
  cancels_debug_tests : RobotCall
  logs_state_changed : ℕ → ℕ → RobotCall
  logs_setup : RobotCall
  calibrates : RobotCall
  logs_calibration : RobotCall
  logs_calibrate_status : RobotCall
  processes_debug : RobotCall
  flushes_log_to_sd : RobotCall
  logs_telemetry : RobotCall
  stops_motors : RobotCall
  blinks_error_leds : RobotCall
  ticks_comm_config : RobotCall

pub record Robot : Type 0 where
  pub usb_active : Bool
  pub ota_flashing : Bool
  pub calls : List RobotCall

abbrev pub calling : Robot → List RobotCall → Robot
calling r made = record r { calls = r.calls ++ made }

-- The loop over the table: a later row that fits wins.
unfoldable pub button_target : List Transition → ℕ → ℕ → ℕ → ℕ
button_target [] current buttons target = target
button_target (t ∷ rest) current buttons target = button_target rest current buttons (
    if t.current_state == current && not (bit_and buttons t.button_mask == 0)
    then t.next_state
    else target)

abbrev pub when : Bool → RobotCall → List RobotCall
when test call = if test then call ∷ [] else []

-- The end of `process_transition`, from the guards of DEBUG on.
unfoldable pub guard_debug : Robot → ℕ → ℕ → ℕ × Robot
guard_debug r current target =
    let leaves = not (target == State.debug) in
    if current == State.debug && r.usb_active
    then (State.debug, calling r (when leaves logs_usb_owns_card))
    else if current == State.debug && r.ota_flashing
    then (State.debug, calling r (when leaves logs_ota_in_progress))
    else (
      target,
      calling r (
          when (current == State.debug && leaves) cancels_debug_tests
          ++ when (not (target == current)) (logs_state_changed current target)),
    )

unfoldable pub process_transition : ℕ → ℕ → Behaviour Robot
unfolding take_request guard_debug button_target
process_transition current buttons a r =
    let (requested, a') = take_request a in
    let wants = not (requested == State.none_state) in
    if a'.locked
    then (returns current, a', calling r (when wants (logs_request_dropped requested)))
    else let target =
        if wants then requested else button_target transition_table current buttons current in
      let (state, r') = guard_debug r current target in (returns state, a', r')

abbrev pub go_to : ℕ → ℕ → List RobotCall → Behaviour Robot
go_to current target made a r =
    (returns target, a, calling r (made ++ (logs_state_changed current target ∷ [])))

abbrev pub stay : ℕ → List RobotCall → Behaviour Robot
stay current made a r = (returns current, a, calling r made)

-- The table of the constructor of `States`: the action and the transition of each state.
unfoldable pub action : ℕ → Behaviour Robot
action state =
    if state == State.setup
    then go_to State.setup State.wait (logs_setup ∷ [])
    else if state == State.calibrate
    then go_to State.calibrate State.wait
        (calibrates ∷ logs_calibration ∷ logs_calibrate_status ∷ [])
    else if state == State.debug
    then stay State.debug (processes_debug ∷ [])
    else if state == State.telemetry
    then go_to State.telemetry State.wait (flushes_log_to_sd ∷ logs_telemetry ∷ [])
    else if state == State.error
    then stay State.error (stops_motors ∷ blinks_error_leds ∷ [])
    else if state == State.comm_config
    then stay State.comm_config (ticks_comm_config ∷ [])
    else stay state []

unfoldable pub entries : ℕ → Option (Entry Robot)
unfolding action process_transition
entries state =
    if state == State.none_state
    then none
    else some
        (record { action = some (action state); next_state = some (process_transition state) })

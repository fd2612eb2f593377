-- ===== src/StatesManager/Policy.antt =====
-- src/robot/StatesManager: what `process_transition` decides.
use Prim.Native.Nat.{bit_and}
use bally_os.Base.{
  ℕ, ◌≡◌, refl, ap, sym, Bool, true, false, not, ◌&&◌, ◌||◌, List, [], ◌∷◌, ◌++◌, arith, ◌==◌,
  if◌then◌else◌,
}
use bally_os.StateMachine.State
use bally_os.StateMachine.{Atomics, Outcome, returns, take_request}
use bally_os.StatesManager.{
  Robot, RobotCall, logs_request_dropped, logs_usb_owns_card, logs_ota_in_progress,
  logs_state_changed, logs_setup, calibrates, logs_calibration, logs_calibrate_status,
  logs_telemetry, processes_debug, flushes_log_to_sd, stops_motors, blinks_error_leds,
  ticks_comm_config, cancels_debug_tests, transition_table, button_target, guard_debug,
  process_transition, calling, when,
}

-- Some button of a mask is pressed.
abbrev pub pressed : ℕ → ℕ → Bool
pressed buttons mask = not (bit_and buttons mask == 0)

-- Where the buttons lead, state by state: the last row of the table wins, so button 2 before 1 before
-- 0 in WAIT, and button 0 before 1 in FINISH.
abbrev pub aim : ℕ → ℕ → ℕ
aim current buttons =
    if current == State.wait
    then (if pressed buttons 4
        then State.debug
        else if pressed buttons 2
        then State.calibrate
        else if pressed buttons 1
        then State.run
        else State.wait)
    else if current == State.run
    then (if pressed buttons 1 then State.finish else State.run)
    else if current == State.debug
    then (if pressed buttons 1 then State.finish else State.debug)
    else if current == State.finish
    then (if pressed buttons 1
        then State.wait
        else if pressed buttons 2
        then State.telemetry
        else State.finish)
    else if current == State.error
    then (if pressed buttons 7 then State.telemetry else State.error)
    else current

button_target-aim :
    (current buttons : ℕ)
    → button_target transition_table current buttons current ≡ aim current buttons
unfolding button_target
button_target-aim current buttons =
    go current (pressed buttons 1) (pressed buttons 2) (pressed buttons 4) (pressed buttons 7)
  where
    go :
        (c : ℕ) (b1 b2 b4 b7 : Bool)
        → (let t1 = if 2 == c && b1 then 5 else c in
            let t2 = if 2 == c && b2 then 3 else t1 in
            let t3 = if 2 == c && b4 then 4 else t2 in
            let t4 = if 5 == c && b1 then 6 else t3 in
            let t5 = if 4 == c && b1 then 6 else t4 in
            let t6 = if 6 == c && b2 then 7 else t5 in
            let t7 = if 6 == c && b1 then 2 else t6 in if 8 == c && b7 then 7 else t7)
          ≡ (if c == 2
              then (if b4 then 4 else if b2 then 3 else if b1 then 5 else 2)
              else if c == 5
              then (if b1 then 6 else 5)
              else if c == 4
              then (if b1 then 6 else 4)
              else if c == 6
              then (if b1 then 2 else if b2 then 7 else 6)
              else if c == 8
              then (if b7 then 7 else 8)
              else c)
    go c b1 b2 b4 b7 = ground arith

-- Whether a list of calls stops the tests of DEBUG.
unfoldable pub stops_tests : List RobotCall → Bool
stops_tests [] = false
stops_tests (cancels_debug_tests ∷ rest) = true
stops_tests (c ∷ rest) = stops_tests rest

stops_tests-append :
    (xs ys : List RobotCall) → stops_tests (xs ++ ys) ≡ (stops_tests xs || stops_tests ys)
unfolding stops_tests
stops_tests-append [] ys = refl
stops_tests-append (cancels_debug_tests ∷ rest) ys = refl
stops_tests-append (logs_request_dropped s ∷ rest) ys = stops_tests-append rest ys
stops_tests-append (logs_usb_owns_card ∷ rest) ys = stops_tests-append rest ys
stops_tests-append (logs_ota_in_progress ∷ rest) ys = stops_tests-append rest ys
stops_tests-append (logs_state_changed s t ∷ rest) ys = stops_tests-append rest ys
stops_tests-append (logs_setup ∷ rest) ys = stops_tests-append rest ys
stops_tests-append (calibrates ∷ rest) ys = stops_tests-append rest ys
stops_tests-append (logs_calibration ∷ rest) ys = stops_tests-append rest ys
stops_tests-append (logs_calibrate_status ∷ rest) ys = stops_tests-append rest ys
stops_tests-append (processes_debug ∷ rest) ys = stops_tests-append rest ys
stops_tests-append (flushes_log_to_sd ∷ rest) ys = stops_tests-append rest ys
stops_tests-append (logs_telemetry ∷ rest) ys = stops_tests-append rest ys
stops_tests-append (stops_motors ∷ rest) ys = stops_tests-append rest ys
stops_tests-append (blinks_error_leds ∷ rest) ys = stops_tests-append rest ys
stops_tests-append (ticks_comm_config ∷ rest) ys = stops_tests-append rest ys

-- DEBUG may not be left: the USB host owns the card, or a firmware write is going on.
abbrev pub kept_in_debug : Robot → ℕ → Bool
kept_in_debug r current = current == State.debug && (r.usb_active || r.ota_flashing)

-- The calls grow; the two flags stay.
abbrev pub Extends : Robot → ℕ → ℕ → Robot → Type 0
Extends r current next r' =
    (r'.usb_active ≡ r.usb_active)
    × (r'.ota_flashing ≡ r.ota_flashing)
    × (stops_tests r'.calls
        ≡ (stops_tests r.calls || (current == State.debug && not (next == State.debug))))

guard_debug_lem :
    (r : Robot) (current target : ℕ)
    → let (next, r') = guard_debug r current target in
      (next ≡ (if kept_in_debug r current then current else target)) × Extends r current next r'
unfolding guard_debug stops_tests
guard_debug_lem r current target =
    let leaves = not (target == State.debug) in
    ground (
      arith,
      stops_tests-append r.calls (when leaves logs_usb_owns_card),
      stops_tests-append r.calls (when leaves logs_ota_in_progress),
      stops_tests-append r.calls (
          when (current == State.debug && leaves) cancels_debug_tests
          ++ when (not (target == current)) (logs_state_changed current target)),
    )

stops_tests-dropped :
    (xs : List RobotCall) (b : Bool) (s : ℕ)
    → stops_tests (xs ++ when b (logs_request_dropped s)) ≡ stops_tests xs
unfolding stops_tests
stops_tests-dropped xs b s = ground (arith, stops_tests-append xs (when b (logs_request_dropped s)))

-- Where a pass wants to go: to the requested state, or else where the buttons lead.
abbrev pub wanted : Atomics → ℕ → ℕ → ℕ
wanted a current buttons =
    if a.requested_state == State.none_state then aim current buttons else a.requested_state

abbrev pub decided : Atomics → Robot → ℕ → ℕ → ℕ
decided a r current buttons =
    if a.locked || kept_in_debug r current then current else wanted a current buttons

-- `process_transition` takes the request in every case. It keeps the state while the machine is locked, and
-- keeps DEBUG while the USB host owns the card or firmware is written; else it goes to the
-- requested state if there is one, and to where the buttons lead if not. The tests of DEBUG are
-- cancelled exactly when DEBUG is left.
pub process_transition-decided :
    (a : Atomics) (r : Robot) (current buttons : ℕ)
    → let (o, a', r') = process_transition current buttons a r in
      (o ≡ returns (decided a r current buttons))
      × (a' ≡ record a { requested_state = State.none_state })
      × Extends r current (decided a r current buttons) r'
unfolding process_transition take_request
process_transition-decided a r current buttons = go a.locked
  where
    after : Atomics
    after = record a { requested_state = State.none_state }

    dropped : List RobotCall
    dropped =
        when (not (a.requested_state == State.none_state)) (logs_request_dropped a.requested_state)

    target : ℕ
    target =
        if not (a.requested_state == State.none_state)
        then a.requested_state
        else button_target transition_table current buttons current

    outcome : Bool → Outcome × Atomics × Robot
    outcome l =
        if l
        then (returns current, after, calling r dropped)
        else let (state, r') = guard_debug r current target in (returns state, after, r')

    go :
        (l : Bool)
        → let next = if l || kept_in_debug r current then current else wanted a current buttons in
          ((outcome l).0 ≡ returns next)
          × ((outcome l).1 ≡ after)
          × Extends r current next (outcome l).2
    go true = (
      refl,
      refl,
      ground (
        arith,
        stops_tests-dropped r.calls (not (a.requested_state == State.none_state)) a.requested_state,
      ),
    )
    go false =
        let aimed : target ≡ wanted a current buttons =
          ground (arith, button_target-aim current buttons) in
        let (next, more) = guard_debug_lem r current (wanted a current buttons) in
        rw aimed (ap returns next, refl, rw (sym next) more)

-- ===== src/StatesManager/Examples.antt =====
-- Runs of src/robot, and its theorems at concrete inputs.
use bally_os.Base.{◌≡◌, refl, inl, true, false, some, List, [], ◌∷◌}
use bally_os.StateMachine.Names.{verify_state}
use bally_os.StateMachine
use bally_os.StateMachine.{
  Atomics, returns, init, take_request, request_state, report_error, settle, guarded, set_locked,
}
use bally_os.StatesManager.{Robot, process_transition, entries, action, button_target, guard_debug}
use bally_os.StatesManager.Policy.{decided}
use bally_os.StatesManager.Machine.{
  Call, runs, nexts, requests, locks, becomes, step, history, Sound, history-Sound, after_action,
  run-after_action, next-decided, Passes,
}

abbrev idle_robot : Robot
idle_robot = record { usb_active = true; ota_flashing = false; calls = [] }

abbrev asked : Atomics
asked = record { current_state = 4; requested_state = 7; locked = false }

-- The robot as `main.cpp` starts it, in SETUP.
started : StateMachine.Machine Robot
unfolding init
started = record init {
  mutex = some true;
  atomics = record { current_state = 1; requested_state = 0; locked = false };
  states = entries;
}

started-Sound : Sound started
unfolding started verify_state
started-Sound = record { usable = refl; registered = refl; valid = refl; requested = inl refl }

abbrev calls : List Call
calls =
    runs 1
    ∷ nexts 4 2
    ∷ nexts 1 3
    ∷ becomes false false
    ∷ requests 7
    ∷ requests 77
    ∷ nexts 0 4
    ∷ runs 5
    ∷ locks true
    ∷ nexts 1 6
    ∷ []

ends_in_wait : (history 10 (started, idle_robot) calls).0.atomics.current_state ≡ 2
unfolding started history step StateMachine.run StateMachine.next guarded settle report_error action
    process_transition take_request request_state verify_state entries button_target guard_debug
    set_locked
ends_in_wait = refl

history-Sound_example : Sound (history 10 (started, idle_robot) calls).0
history-Sound_example = history-Sound 10 started idle_robot calls started-Sound

run-after_action_example :
    Passes started (after_action 1) 0 (StateMachine.run started idle_robot 7 10)
unfolding started
run-after_action_example = run-after_action started idle_robot 7 10 started-Sound

next-decided_example :
    Passes started
      (decided started.atomics idle_robot 1 5)
      0
      (StateMachine.next started idle_robot 5 7 10)
unfolding started
next-decided_example = next-decided started idle_robot 5 7 10 started-Sound

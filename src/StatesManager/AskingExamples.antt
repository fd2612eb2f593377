-- ===== src/StatesManager/AskingExamples.antt =====
-- Runs of the shell module "state", and its theorem at concrete inputs.
use bally_os.Base.{◌≡◌, refl, true, false, some, [], ◌∷◌, codes}
use bally_os.RobotSettings.Shell.{result_ok, result_error}
use bally_os.RobotSettings.Numbers.{print_unsigned}
use bally_os.StateMachine.{Atomics, returns, init}
use bally_os.StateMachine.History.{recent, append, empty_ring}
use bally_os.StateMachine.Names.{state_to_string, state_from_string, verify_state}
use bally_os.StatesManager.{Robot, process_transition}
use bally_os.StatesManager.Shell.{set_state, get_state, list_history, history, table_lines, info}
use bally_os.StatesManager.Asking.{set_state-process_transition}

abbrev waiting : Atomics
waiting = record { current_state = 2; requested_state = 0; locked = false }

abbrev flashing_robot : Robot
flashing_robot = record { usb_active = false; ota_flashing = true; calls = [] }

unknown_name : (set_state waiting (codes "RUNS")).1 ≡ result_error
unfolding set_state state_from_string
unknown_name = refl

shown : (get_state waiting).1 ≡ info (codes "state=WAIT locked=0 pending_request=NONE")
unfolding get_state state_to_string
shown = refl

-- One change of state, as "state history" shows it.
history_shown :
    (list_history (record (init {W = Robot}) {
      mutex = some true;
      history = append empty_ring (record { from = 2; to = 5; uptime_ms = 1200 });
    })).2
    ≡ info (codes "0 from=WAIT to=RUN uptime_ms=1200\n")
unfolding list_history history append recent print_unsigned state_to_string
history_shown = refl

-- The last row of "state table".
row_shown :
    table_lines 7 (record { current_state = 8; button_mask = 7; next_state = 7 } ∷ [])
    ≡ codes "7 from=ERROR mask=0x07 to=TELEMETRY\n"
unfolding table_lines print_unsigned state_to_string
row_shown = refl

set_state-process_transition_example :
    ((set_state waiting (codes "Run")).1 ≡ result_ok)
    × ((process_transition 2 4 ((set_state waiting (codes "Run")).0) flashing_robot).1 ≡ waiting)
    × ((process_transition 2 4 ((set_state waiting (codes "Run")).0) flashing_robot).0 ≡ returns 5)
unfolding verify_state state_to_string
set_state-process_transition_example =
    set_state-process_transition waiting flashing_robot 2 4 5 (codes "Run") refl refl

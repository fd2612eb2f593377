-- ===== src/StatesManager/Shell.antt =====
-- src/robot/StatesManager: the shell module "state". A command gives the machine, its result code and what it
-- logs; the texts are those before the log shortens them.
use bally_os.Base.{
  ℕ, zero, suc, ◌+◌, ◌/◌, ◌%◌, Bool, true, false, none, some, List, [], ◌∷◌, ◌++◌, take, codes, ltb,
  ◌==◌, if◌then◌else◌,
}
use bally_os.RobotSettings.Numbers.{print_unsigned}
use bally_os.RobotSettings.Shell.{CommandResult, result_ok, result_error}
use bally_os.StateMachine.State
use bally_os.StateMachine.{Machine, Atomics, acquire, release, request_state, set_locked}
use bally_os.StateMachine.Names.{state_to_string, state_from_string}
use bally_os.StateMachine.History.{TransitionRecord, history_depth, recent}
use bally_os.StatesManager.{Transition, transition_table}

-- `insert_log` and `insert_logf` at a level.
pub data Log : Type 0 where
  info warn erro : List ℕ → Log

abbrev print_flag : Bool → List ℕ
print_flag b = if b then codes "1" else codes "0"

-- What `snprintf` leaves in a buffer of `size` octets, without the closing 0.
abbrev buffered : ℕ → List ℕ → List ℕ
buffered zero text = []
buffered (suc room) text = take room text

-- A digit of "%X", and "0x%02X" of an octet.
abbrev hex_digit : ℕ → ℕ
hex_digit d = if ltb d 10 then b'0' + d else d + 55

abbrev print_mask : ℕ → List ℕ
print_mask mask = codes "0x" ++ (hex_digit (mask / 16) ∷ hex_digit (mask % 16) ∷ [])

abbrev request : Atomics × Bool → ℕ → Atomics × CommandResult × Log
request (a, false) target = (
  a,
  result_error,
  erro (codes "state " ++ state_to_string target ++ codes " cannot be requested"),
)
request (a, true) target =
    (a, result_ok, info (codes "requested_state=" ++ state_to_string target ++ codes " pending=1"))

-- "state set", of the C string of the name.
unfoldable pub set_state : Atomics → List ℕ → Atomics × CommandResult × Log
set_state a name =
    let target = state_from_string (some name) in
    if target == State.none_state
    then (
      a,
      result_error,
      erro (
          codes "unknown state '"
          ++ name
          ++ codes "' (SETUP|WAIT|CALIBRATE|DEBUG|RUN|FINISH|TELEMETRY|ERROR)"),
    )
    else if a.locked
    then (a, result_error, erro (codes "state is locked; run 'state unlock' first"))
    else request (request_state a target) target

-- "state get"
unfoldable pub get_state : Atomics → CommandResult × Log
get_state a = (
  result_ok,
  info (
      codes "state="
      ++ state_to_string a.current_state
      ++ codes " locked="
      ++ print_flag a.locked
      ++ codes " pending_request="
      ++ state_to_string a.requested_state),
)

-- The rows of "state table", from row `i` on.
unfoldable pub table_lines : ℕ → List Transition → List ℕ
table_lines i [] = []
table_lines i (t ∷ rest) =
    buffered 96 (
      print_unsigned i
      ++ codes " from="
      ++ state_to_string t.current_state
      ++ codes " mask="
      ++ print_mask t.button_mask
      ++ codes " to="
      ++ state_to_string t.next_state
      ++ codes "\n")
    ++ table_lines (i + 1) rest

unfoldable pub list_table : CommandResult × Log
unfolding table_lines
list_table = (
  result_ok,
  info (
      codes "button transition table (mask is a button bitmask)\n"
      ++ table_lines 0 transition_table
      ++ codes
          "note: SETUP/CALIBRATE/TELEMETRY self-transition from their action function; COMM_CONFIG only leaves via reboot"),
)

unfoldable lock_state : Atomics → Atomics × CommandResult × Log
lock_state a = (set_locked a true, result_ok, warn (codes "locked=1 transitions are held"))

unfoldable unlock_state : Atomics → Atomics × CommandResult × Log
unlock_state a = (set_locked a false, result_ok, info (codes "locked=0 transitions resumed"))

-- The records of "state history", from the `i`-th newest on.
unfoldable pub history_lines : ℕ → List TransitionRecord → List ℕ
history_lines i [] = []
history_lines i (t ∷ rest) =
    buffered 80 (
      print_unsigned i
      ++ codes " from="
      ++ state_to_string t.from
      ++ codes " to="
      ++ state_to_string t.to
      ++ codes " uptime_ms="
      ++ print_unsigned t.uptime_ms
      ++ codes "\n")
    ++ history_lines (i + 1) rest

abbrev report_history : List TransitionRecord → CommandResult × Log
report_history [] = (result_ok, info (codes "transitions=0"))
report_history (t ∷ rest) = (result_ok, info (history_lines 0 (t ∷ rest)))

module _ {W : Type 0} where
  -- `StateMachine::history`: nothing without the mutex, or when its take fails.
  unfoldable pub history : Machine W → ℕ → Machine W × List TransitionRecord
  history m max_records = if max_records == 0 then (m, []) else elim m.mutex [
    | none ↦ (m, [])
    | some taken ↦ if taken then (release (acquire m), recent m.history max_records) else (m, [])
  ]

  -- "state history"
  unfoldable pub list_history : Machine W → Machine W × CommandResult × Log
  unfolding history_lines
  list_history m =
      let (m', records) = history m history_depth in
      let (result, log) = report_history records in (m', result, log)

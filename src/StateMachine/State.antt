-- ===== src/StateMachine/State.antt =====
-- lib/StateMachine/StateMachine.h: `stateName`, by value.
use bally_os.Base.{ℕ}

abbrev pub none_state : ℕ
none_state = 0

abbrev pub setup : ℕ
setup = 1

abbrev pub wait : ℕ
wait = 2

abbrev pub calibrate : ℕ
calibrate = 3

abbrev pub debug : ℕ
debug = 4

abbrev pub run : ℕ
run = 5

abbrev pub finish : ℕ
finish = 6

abbrev pub telemetry : ℕ
telemetry = 7

abbrev pub error : ℕ
error = 8

abbrev pub comm_config : ℕ
comm_config = 9

abbrev pub number_of_states : ℕ
number_of_states = 10

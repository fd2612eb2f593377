-- ===== src/StateMachine/Examples.antt =====
-- Runs of lib/StateMachine, and its theorems at concrete inputs.
use bally_os.Base.{ℕ, true, false, some, none, List, [], ◌∷◌, ◌++◌, codes, if◌then◌else◌, ◌==◌}
use bally_os.StateMachine.History.{Transition}
use bally_os.StateMachine.Steps.{Steps, run-Steps}
use bally_os.StateMachine.{Machine, Entry, returns, throws, init, run, next, next_of}

abbrev passed : List Transition
passed =
    record { old = 5; new = 6; ticks = 30 }
    ∷ record { old = 5; new = 5; ticks = 20 }
    ∷ record { old = 2; new = 5; ticks = 10 }
    ∷ []

-- The state RUN alone, whose transition throws without a button.
abbrev runner : Entry (List ℕ)
runner = record {
  action = some (λ a w. (returns 5, a, w ++ (1 ∷ [])));
  next_state =
      some λ buttons a w. (if buttons == 0 then throws (codes "idle") else returns 6, a, w);
}

machine : Machine (List ℕ)
unfolding init
machine = record init {
  mutex = some true;
  atomics = record { current_state = 5; requested_state = 0; locked = false };
  states = λ s. if s == 5 then some runner else none;
}

run-Steps_example :
    Steps (λ e. e.action) machine [] 7 10 (run machine [] 7 10)
    × Steps (next_of 0) machine [] 7 10 (next machine [] 0 7 10)
run-Steps_example = run-Steps machine [] 0 7 10

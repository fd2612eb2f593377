-- ===== src/StateMachine.antt =====
-- lib/StateMachine: the state of the robot. The statics of the class are one record; those that other
-- tasks read and write without the mutex are the record `Atomics`. What a state's callbacks do is a function
-- over the atomics and a world `W`. A take of the mutex waits for ever, so it fails only if the
-- kernel says so: `mutex` is null, or what a take answers.
pub mod State
pub mod Names
pub mod History
pub mod Steps
mod Examples
use bally_os.Base.{
  ℕ, zero, suc, ◌+◌, ◌-◌, Bool, true, false, Option, none, some, List, ◌++◌, codes, if◌then◌else◌,
  u8, not,
}
use bally_os.StateMachine.State
use Names.{state_to_string, verify_state}
use History.{Ring, empty_ring, record_transition}

pub record Atomics : Type 0 where
  pub current_state : ℕ
  pub requested_state : ℕ
  pub locked : Bool

-- A callback returns a state, or throws an exception with a text.
pub data Outcome : Type 0 where
  returns : ℕ → Outcome
  throws : List ℕ → Outcome

abbrev pub Behaviour : Type 0 → Type 0
Behaviour W = Atomics → W → Outcome × Atomics × W

pub record Entry (W : Type 0) : Type 0 where
  pub action : Option (Behaviour W)
  pub next_state : Option (ℕ → Behaviour W)

pub data ErrorCallback (W : Type 0) : Type 0 where
  default_error_callback : ErrorCallback W
  custom : (W → List ℕ → W) → ErrorCallback W

-- `held` counts the takes of the mutex that wait for their give.
pub record Machine (W : Type 0) : Type 0 where
  pub atomics : Atomics
  pub mutex : Option Bool
  pub held : ℕ
  pub error_callback : Option (ErrorCallback W)
  pub history : Ring
  pub states : ℕ → Option (Entry W)

unfoldable pub request_state : Atomics → ℕ → Atomics × Bool
request_state a state =
    if verify_state state then (record a { requested_state = state }, true) else (a, false)

unfoldable pub take_request : Atomics → ℕ × Atomics
take_request a = (a.requested_state, record a { requested_state = State.none_state })

unfoldable pub set_locked : Atomics → Bool → Atomics
set_locked a locked = record a { locked = locked }

module _ {W : Type 0} where
  unfoldable pub init : Machine W
  init = record {
    atomics = record {
      current_state = State.none_state;
      requested_state = State.none_state;
      locked = false;
    };
    mutex = none;
    held = 0;
    error_callback = none;
    history = empty_ring;
    states = λ s. none;
  }

  unfoldable pub in_error : Machine W → Machine W
  in_error m = record m { atomics = record (m.atomics) { current_state = State.error } }

  unfoldable pub set_error_callback : Machine W → Option (W → List ℕ → W) → Machine W
  unfolding in_error
  set_error_callback m none = in_error (record m { error_callback = some default_error_callback })
  set_error_callback m (some f) = record m { error_callback = some (custom f) }

  abbrev pub call_back : Option (ErrorCallback W) → W → List ℕ → W
  call_back (some (custom f)) w message = f w message
  call_back (some default_error_callback) w message = w
  call_back none w message = w

  -- The state is `ERROR` after the callback, which the default one sets as well.
  unfoldable pub report_error : Machine W → W → List ℕ → Machine W × Bool × W
  unfolding in_error
  report_error m w message = (in_error m, false, call_back m.error_callback w message)

  abbrev pub acquire : Machine W → Machine W
  acquire m = record m { held = m.held + 1 }

  abbrev pub release : Machine W → Machine W
  release m = record m { held = m.held - 1 }

  -- What is missing of a state, if anything.
  abbrev pub fault : ℕ → Option (Entry W) → Option (List ℕ)
  fault i none = some (codes "StateMachine instance is missing")
  fault i (some e) = elim e.action [
    | none ↦ some (codes "StateMachine action callback is missing in " ++ state_to_string i)
    | some act ↦ elim e.next_state [
      | none ↦ some (codes "StateMachine next_state callback is missing in " ++ state_to_string i)
      | some f ↦ none
    ]
  ]

  -- The loop of `verifyCallbacks`, from state `i` on, for `left` states.
  unfoldable pub first_fault : (ℕ → Option (Entry W)) → ℕ → ℕ → Option (List ℕ)
  first_fault states i zero = none
  first_fault states i (suc left) =
      let rest = first_fault states (i + 1) left in
      elim (fault i (states i)) [ none ↦ rest | some message ↦ some message ]

  unfoldable pub check_states : Machine W → W → Machine W × Bool × W
  unfolding first_fault report_error
  check_states m w = elim (first_fault m.states 1 9) [
    | none ↦ (m, true, w)
    | some message ↦ report_error m w message
  ]

  unfoldable pub verify_callbacks : Machine W → W → Machine W × Bool × W
  unfolding check_states
  verify_callbacks m w = elim m.mutex [
    | none ↦ check_states m w
    | some taken ↦
        if taken
        then check_states (release (acquire m)) w
        else report_error m w (codes "Failed to lock transition mutex")
  ]

  -- What becomes of a callback's outcome: the end of `run` and of `next`, mutex held.
  unfoldable pub settle :
      Machine W → ℕ → Outcome × Atomics × W → List ℕ → ℕ → ℕ → Machine W × Bool × W
  unfolding report_error
  settle m active (returns v, a, w) message ticks period = (
    release (record m {
      atomics = record a { current_state = u8 v };
      history = record_transition m.history active (u8 v) ticks period;
    }),
    true,
    w,
  )
  settle m active (throws what, a, w) message ticks period =
      let (m', done, w') = report_error (release (record m { atomics = a })) w message in
      report_error m' w' what

  -- The callback of a state, of those that are there.
  abbrev pub chosen : (Entry W → Option (Behaviour W)) → Option (Entry W) → Option (Behaviour W)
  chosen choose none = none
  chosen choose (some e) = choose e

  -- `run` and `next`, which differ in the callback they choose and in two messages.
  unfoldable pub guarded :
      (Entry W → Option (Behaviour W))
      → List ℕ
      → List ℕ
      → Machine W
      → W
      → ℕ
      → ℕ
      → Machine W × Bool × W
  unfolding settle
  guarded choose undefined failed m w ticks period = elim m.mutex [
    | none ↦ report_error m w (codes "Transition mutex not initialized")
    | some taken ↦
        let l = acquire m in
        let active = l.atomics.current_state in
        if not taken
        then report_error m w (codes "Failed to lock transition mutex")
        else if not (verify_state active)
        then report_error (release l) w (codes "State is not valid")
        else elim (chosen choose (l.states active)) [
          | none ↦ report_error (release l) w undefined
          | some act ↦ settle l active (act l.atomics w) failed ticks period
        ]
  ]

  unfoldable pub run : Machine W → W → ℕ → ℕ → Machine W × Bool × W
  unfolding guarded
  run m w ticks period =
      guarded (λ e. e.action) (codes "State action callback is not defined")
        (codes "Error in the loop function state machine") m w ticks period

  abbrev pub next_of : ℕ → Entry W → Option (Behaviour W)
  next_of buttons e = elim e.next_state [ none ↦ none | some f ↦ some (f buttons) ]

  unfoldable pub next : Machine W → W → ℕ → ℕ → ℕ → Machine W × Bool × W
  unfolding guarded
  next m w buttons ticks period =
      guarded (next_of buttons) (codes "State next_state callback is not defined")
        (codes "Error in the next function state machine") m w ticks period

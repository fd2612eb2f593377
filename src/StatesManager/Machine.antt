-- ===== src/StatesManager/Machine.antt =====
-- The state machine of lib/StateMachine with the states of src/robot in it.
use bally_os.Base.{
  ℕ, ◌≡◌, refl, ap, sym, subst, ◌∙◌, ◌⊎◌, inl, inr, Bool, true, false, ◌||◌, List, [], ◌∷◌, none,
  some, arith, ◌==◌, if◌then◌else◌, u8, Bool-cases,
}
use bally_os.StateMachine.State
use bally_os.StateMachine.Names.{verify_state}
use bally_os.StateMachine.Steps.{Ready, Kept, run-Arrives, next-Arrives}
use bally_os.StateMachine
use bally_os.StateMachine.{Atomics, Outcome, returns, Entry, request_state, set_locked, next_of}
use bally_os.StatesManager.{Robot, action, process_transition, entries}
use bally_os.StatesManager.Policy.{decided, process_transition-decided}

-- Where an action leads.
abbrev pub after_action : ℕ → ℕ
after_action state =
    if state == State.setup || state == State.calibrate || state == State.telemetry
    then State.wait
    else state

action_lem :
    (state : ℕ) (a : Atomics) (r : Robot)
    → action state a r ≡ (returns (after_action state), a, (action state a r).2)
unfolding action
action_lem state a r = ground arith

-- What one task may do to the machine: a pass of `run` or of `next`, a request and the lock of the shell,
-- and the world around it changing hands of the card or the flash.
pub data Call : Type 0 where
  runs : ℕ → Call
  nexts : ℕ → ℕ → Call
  requests : ℕ → Call
  locks : Bool → Call
  becomes : Bool → Bool → Call

unfoldable pub step :
    ℕ → StateMachine.Machine Robot × Robot → Call → StateMachine.Machine Robot × Robot
step period (m, r) (runs ticks) = let (m', done, r') = StateMachine.run m r ticks period in (m', r')
step period (m, r) (nexts buttons ticks) =
    let (m', done, r') = StateMachine.next m r buttons ticks period in (m', r')
step period (m, r) (requests s) = (record m { atomics = (request_state m.atomics s).0 }, r)
step period (m, r) (locks b) = (record m { atomics = set_locked m.atomics b }, r)
step period (m, r) (becomes usb ota) = (m, record r { usb_active = usb; ota_flashing = ota })

unfoldable pub history :
    ℕ → StateMachine.Machine Robot × Robot → List Call → StateMachine.Machine Robot × Robot
unfolding step
history period mr [] = mr
history period mr (c ∷ cs) = history period (step period mr c) cs

-- A machine of the robot in some valid state, with a valid request or none.
pub record Sound (m : StateMachine.Machine Robot) : Type 0 where
  pub usable : m.mutex ≡ some true
  pub registered : m.states ≡ entries
  pub valid : verify_state m.atomics.current_state ≡ true
  pub requested :
      (m.atomics.requested_state ≡ State.none_state)
      ⊎ (verify_state m.atomics.requested_state ≡ true)

after_action-valid : (s : ℕ) → verify_state s ≡ true → verify_state (u8 (after_action s)) ≡ true
unfolding verify_state
after_action-valid s valid = ground arith

decided-valid :
    (a : Atomics) (r : Robot) (current buttons : ℕ)
    → verify_state current ≡ true
    → (a.requested_state ≡ State.none_state) ⊎ (verify_state a.requested_state ≡ true)
    → verify_state (decided a r current buttons) ≡ true
unfolding verify_state
decided-valid a r current buttons valid requested = ground arith

valid-u8 : (s : ℕ) → verify_state s ≡ true → u8 s ≡ s
unfolding verify_state
valid-u8 s valid = ground arith

entry_of : ℕ → Entry Robot
entry_of s = record { action = some (action s); next_state = some (process_transition s) }

entries_lem : (s : ℕ) → verify_state s ≡ true → entries s ≡ some (entry_of s)
unfolding entries entry_of verify_state
entries_lem s valid =
    let known : (s == State.none_state) ≡ false = ground arith in
    ap (λ (b : Bool). if b then none else some (entry_of s)) known

run-Ready :
    (m : StateMachine.Machine Robot)
    → Sound m
    → Ready (λ e. e.action) m (action m.atomics.current_state)
unfolding entry_of
run-Ready m o = (
  o.usable,
  o.valid,
  ap (λ f. StateMachine.chosen (λ e. e.action) (f m.atomics.current_state)) o.registered
      ∙ ap (StateMachine.chosen (λ e. e.action)) (entries_lem m.atomics.current_state o.valid),
)

next-Ready :
    (m : StateMachine.Machine Robot) (buttons : ℕ)
    → Sound m
    → Ready (next_of buttons) m (process_transition m.atomics.current_state buttons)
unfolding entry_of
next-Ready m buttons o = (
  o.usable,
  o.valid,
  ap (λ f. StateMachine.chosen (next_of buttons) (f m.atomics.current_state)) o.registered
      ∙ ap (StateMachine.chosen (next_of buttons)) (entries_lem m.atomics.current_state o.valid),
)

-- A pass of the machine that succeeds, in a given state, and keeps or takes the request.
abbrev pub Passes :
    StateMachine.Machine Robot → ℕ → ℕ → StateMachine.Machine Robot × Bool × Robot → Type 0
Passes m state requested (m', done, r') =
    (done ≡ true)
    × (m'.atomics ≡ record (m.atomics) { current_state = state; requested_state = requested })
    × Kept m m'

-- A pass of `run` with the robot's states succeeds: SETUP, CALIBRATE and TELEMETRY lead to WAIT, and every
-- other state stays, locked or not.
pub run-after_action :
    (m : StateMachine.Machine Robot) (r : Robot) (ticks period : ℕ)
    → Sound m
    → Passes m
        (after_action m.atomics.current_state)
        m.atomics.requested_state
        (StateMachine.run m r ticks period)
unfolding verify_state
run-after_action m r ticks period o =
    let s = m.atomics.current_state in
    let (done, a, w, kept) =
      run-Arrives m r ticks period (after_action s) (action s) m.atomics (action s m.atomics r).2
        (run-Ready m o) (action_lem s m.atomics r) in
    let fits : u8 (after_action s) ≡ after_action s = ground (arith, o.valid) in
    (done, a ∙ ap (λ x. record (m.atomics) { current_state = x }) fits, kept)

process_transition_lem :
    (a : Atomics) (r : Robot) (current buttons : ℕ)
    → process_transition current buttons a r ≡ (
      returns (decided a r current buttons),
      record a { requested_state = State.none_state },
      (process_transition current buttons a r).2,
    )
process_transition_lem a r current buttons =
    let (o, a', _) = process_transition-decided a r current buttons in
    ap
      (λ x.
        (x, (process_transition current buttons a r).1, (process_transition current buttons a r).2))
      o
    ∙ ap
        (λ x.
          (returns (decided a r current buttons), x, (process_transition current buttons a r).2))
        a'

-- A pass of `next` with the robot's states succeeds, takes the request, and leaves the machine in the state
-- that the policy decides: the current one while it is locked, DEBUG while the card or the flash is in
-- use, else the requested state, else the one the buttons lead to.
pub next-decided :
    (m : StateMachine.Machine Robot) (r : Robot) (buttons ticks period : ℕ)
    → Sound m
    → Passes m
        (decided m.atomics r m.atomics.current_state buttons)
        State.none_state
        (StateMachine.next m r buttons ticks period)
next-decided m r buttons ticks period o =
    let s = m.atomics.current_state in
    let next = decided m.atomics r s buttons in
    let (done, a, w, kept) =
      next-Arrives m r buttons ticks period next (process_transition s buttons)
        (record (m.atomics) { requested_state = State.none_state })
        (process_transition s buttons m.atomics r).2 (next-Ready m buttons o)
        (process_transition_lem m.atomics r s buttons) in
    let fits = valid-u8 next (decided-valid m.atomics r s buttons o.valid o.requested) in
    (
      done,
      a
          ∙ ap (λ x. record (m.atomics) { current_state = x; requested_state = State.none_state })
              fits,
      kept,
    )

Passes-Sound :
    (m : StateMachine.Machine Robot) (state requested : ℕ)
    (x : StateMachine.Machine Robot × Bool × Robot)
    → Sound m
    → verify_state state ≡ true
    → (requested ≡ State.none_state) ⊎ (verify_state requested ≡ true)
    → Passes m state requested x
    → Sound x.0
Passes-Sound m state requested (m', done, r') o valid request (_, a, (_, mutex, states, _)) =
    record {
      usable = mutex ∙ o.usable;
      registered = states ∙ o.registered;
      valid = ap (λ (b : Atomics). verify_state b.current_state) a ∙ valid;
      requested =
          subst
            (λ (b : Atomics).
              (b.requested_state ≡ State.none_state) ⊎ (verify_state b.requested_state ≡ true))
            (sym a) request;
    }

step-Sound :
    (period : ℕ) (m : StateMachine.Machine Robot) (r : Robot) (c : Call)
    → Sound m
    → Sound (step period (m, r) c).0
unfolding step request_state set_locked
step-Sound period m r (runs ticks) o =
    Passes-Sound m (after_action m.atomics.current_state) m.atomics.requested_state
      (StateMachine.run m r ticks period) o (unfold verify_state in ground (arith, o.valid))
      o.requested (run-after_action m r ticks period o)
step-Sound period m r (nexts buttons ticks) o =
    Passes-Sound m (decided m.atomics r m.atomics.current_state buttons) State.none_state
      (StateMachine.next m r buttons ticks period) o
      (decided-valid m.atomics r m.atomics.current_state buttons o.valid o.requested) (inl refl)
      (next-decided m r buttons ticks period o)
step-Sound period m r (requests s) o = elim (Bool-cases (verify_state s)) [
  | inl e ↦
      rw e (record {
        usable = o.usable;
        registered = o.registered;
        valid = o.valid;
        requested = inr e;
      })
  | inr e ↦ rw e (record {
    usable = o.usable;
    registered = o.registered;
    valid = o.valid;
    requested = o.requested;
  })
]
step-Sound period m r (locks b) o = record {
  usable = o.usable;
  registered = o.registered;
  valid = o.valid;
  requested = o.requested;
}
step-Sound period m r (becomes usb ota) o = o

-- From a robot in a valid state, whatever passes are made, buttons pressed, states requested by the shell
-- (valid or not) and locks set, the machine stays in a valid state with its callbacks, its request is
-- a valid state or none, and the mutex can be taken. So the next pass succeeds again.
pub history-Sound :
    (period : ℕ) (m : StateMachine.Machine Robot) (r : Robot) (cs : List Call)
    → Sound m
    → Sound (history period (m, r) cs).0
unfolding history
history-Sound period m r [] o = o
history-Sound period m r (c ∷ cs) o =
    let (m', r') = step period (m, r) c in history-Sound period m' r' cs (step-Sound period m r c o)

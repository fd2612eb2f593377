-- ===== src/StateMachine/Steps.antt =====
-- lib/StateMachine, `run` and `next`: every way they end.
use bally_os.Base.{
  ℕ, ◌≡◌, refl, ap, sym, ◌∙◌, subst, ◌⊎◌, inl, inr, Bool, true, false, not, Option, none, some,
  List, arith, codes, if◌then◌else◌, u8,
}
use bally_os.StateMachine.State
use bally_os.StateMachine.Names.{verify_state}
use bally_os.StateMachine.History.{record_transition}
use bally_os.StateMachine.{
  Atomics, Outcome, returns, throws, Behaviour, Entry, Machine, acquire, release, chosen, settle,
  guarded, report_error, in_error, run, next, next_of,
}

module _ {W : Type 0} where
  -- The callback that a call may enter: the mutex can be taken, the state is valid and has one.
  abbrev pub Ready : (Entry W → Option (Behaviour W)) → Machine W → Behaviour W → Type 0
  Ready choose m act =
      (m.mutex ≡ some true)
      × (verify_state m.atomics.current_state ≡ true)
      × (chosen choose (m.states m.atomics.current_state) ≡ some act)

  -- A step: the callback returned state `v`, and the machine is in it.
  abbrev pub Stepped : Machine W → W → Behaviour W → ℕ → ℕ → Machine W × Bool × W → Type 0
  Stepped m w act ticks period (m', done, w') =
      (v : ℕ) × (a : Atomics) × (act m.atomics w ≡ (returns v, a, w'))
      × (done ≡ true)
      × (m'.atomics ≡ record a { current_state = u8 v })
      × (m'.history ≡ record_transition m.history m.atomics.current_state (u8 v) ticks period)

  -- A failure: the state is `ERROR`, which the history does not show.
  abbrev pub Failed : Machine W → Machine W × Bool × W → Type 0
  Failed m (m', done, w') =
      (done ≡ false) × (m'.atomics.current_state ≡ State.error) × (m'.history ≡ m.history)

  -- The mutex is given back as often as it was taken, and the callbacks stay.
  abbrev pub Kept : Machine W → Machine W → Type 0
  Kept m m' =
      (m'.held ≡ m.held)
      × (m'.mutex ≡ m.mutex)
      × (m'.states ≡ m.states)
      × (m'.error_callback ≡ m.error_callback)

  abbrev pub Steps :
      (Entry W → Option (Behaviour W)) → Machine W → W → ℕ → ℕ → Machine W × Bool × W → Type 0
  Steps choose m w ticks period r =
      Kept m r.0
      × (((act : Behaviour W) × Ready choose m act × Stepped m w act ticks period r) ⊎ Failed m r)

  settle-Steps :
      (choose : Entry W → Option (Behaviour W)) (m : Machine W) (w : W) (act : Behaviour W)
      (message : List ℕ) (ticks period : ℕ)
      → Ready choose m act
      → Steps choose m w ticks period
          (settle (acquire m) m.atomics.current_state (act m.atomics w) message ticks period)
  unfolding settle report_error in_error
  settle-Steps choose m w act message ticks period ready = go (act m.atomics w) refl
    where
      go :
          (r : Outcome × Atomics × W)
          → act m.atomics w ≡ r
          → Steps choose m w ticks period
              (settle (acquire m) m.atomics.current_state r message ticks period)
      go (returns v, a, w') e =
          ((omega arith, refl, refl, refl), inl (act, ready, (v, a, e, refl, refl, refl)))
      go (throws what, a, w') e = ((omega arith, refl, refl, refl), inr (refl, refl, refl))

  guarded-Steps :
      (choose : Entry W → Option (Behaviour W)) (undefined failed : List ℕ) (m : Machine W) (w : W)
      (ticks period : ℕ)
      → Steps choose m w ticks period (guarded choose undefined failed m w ticks period)
  unfolding guarded report_error in_error
  guarded-Steps choose undefined failed m w ticks period = go m.mutex refl
    where
      inner : Option (Behaviour W) → Machine W × Bool × W
      inner r = elim r [
        | none ↦ report_error (release (acquire m)) w undefined
        | some act ↦
            settle (acquire m) m.atomics.current_state (act m.atomics w) failed ticks period
      ]

      in_state : Bool → Machine W × Bool × W
      in_state valid =
          if not valid
          then report_error (release (acquire m)) w (codes "State is not valid")
          else inner (chosen choose (m.states m.atomics.current_state))

      body : Option Bool → Machine W × Bool × W
      body x = elim x [
        | none ↦ report_error m w (codes "Transition mutex not initialized")
        | some taken ↦
            if not taken
            then report_error m w (codes "Failed to lock transition mutex")
            else in_state (verify_state m.atomics.current_state)
      ]

      enter :
          (r : Option (Behaviour W))
          → chosen choose (m.states m.atomics.current_state) ≡ r
          → m.mutex ≡ some true
          → verify_state m.atomics.current_state ≡ true
          → Steps choose m w ticks period (inner r)
      enter none e held valid = ((omega arith, refl, refl, refl), inr (refl, refl, refl))
      enter (some act) e held valid =
          settle-Steps choose m w act failed ticks period (held, valid, e)

      visit :
          (b : Bool)
          → verify_state m.atomics.current_state ≡ b
          → m.mutex ≡ some true
          → Steps choose m w ticks period (in_state b)
      visit true valid e = enter (chosen choose (m.states m.atomics.current_state)) refl e valid
      visit false bad e = ((omega arith, refl, refl, refl), inr (refl, refl, refl))

      go : (x : Option Bool) → m.mutex ≡ x → Steps choose m w ticks period (body x)
      go none e = ((refl, refl, refl, refl), inr (refl, refl, refl))
      go (some false) e = ((refl, refl, refl, refl), inr (refl, refl, refl))
      go (some true) e = visit (verify_state m.atomics.current_state) refl e

  -- A ready machine enters the callback.
  guarded-Ready :
      (choose : Entry W → Option (Behaviour W)) (undefined failed : List ℕ) (m : Machine W) (w : W)
      (ticks period : ℕ) (act : Behaviour W)
      → Ready choose m act
      → guarded choose undefined failed m w ticks period
        ≡ settle (acquire m) m.atomics.current_state (act m.atomics w) failed ticks period
  unfolding guarded
  guarded-Ready choose undefined failed m w ticks period act (held, valid, e) =
      ap body held ∙ ap in_state valid ∙ ap inner e
    where
      inner : Option (Behaviour W) → Machine W × Bool × W
      inner r = elim r [
        | none ↦ report_error (release (acquire m)) w undefined
        | some act' ↦
            settle (acquire m) m.atomics.current_state (act' m.atomics w) failed ticks period
      ]

      in_state : Bool → Machine W × Bool × W
      in_state valid' =
          if not valid'
          then report_error (release (acquire m)) w (codes "State is not valid")
          else inner (chosen choose (m.states m.atomics.current_state))

      body : Option Bool → Machine W × Bool × W
      body x = elim x [
        | none ↦ report_error m w (codes "Transition mutex not initialized")
        | some taken ↦
            if not taken
            then report_error m w (codes "Failed to lock transition mutex")
            else in_state (verify_state m.atomics.current_state)
      ]

  -- A call that succeeded: the machine is in state `v`.
  abbrev pub Arrives : Machine W → ℕ → Atomics → W → Machine W × Bool × W → Type 0
  Arrives m v a w (m', done, w') =
      (done ≡ true) × (m'.atomics ≡ record a { current_state = u8 v }) × (w' ≡ w) × Kept m m'

  guarded-Arrives :
      (choose : Entry W → Option (Behaviour W)) (undefined failed : List ℕ) (m : Machine W) (w : W)
      (ticks period v : ℕ) (act : Behaviour W) (a : Atomics) (w' : W)
      → Ready choose m act
      → act m.atomics w ≡ (returns v, a, w')
      → Arrives m v a w' (guarded choose undefined failed m w ticks period)
  unfolding settle
  guarded-Arrives choose undefined failed m w ticks period v act a w' ready e =
      subst (Arrives m v a w')
        (sym (
          guarded-Ready choose undefined failed m w ticks period act ready
          ∙ ap (λ o. settle (acquire m) m.atomics.current_state o failed ticks period) e))
        (refl, refl, refl, (omega arith, refl, refl, refl))

  pub run-Arrives :
      (m : Machine W) (w : W) (ticks period v : ℕ) (act : Behaviour W) (a : Atomics) (w' : W)
      → Ready (λ e. e.action) m act
      → act m.atomics w ≡ (returns v, a, w')
      → Arrives m v a w' (run m w ticks period)
  unfolding run
  run-Arrives m w = guarded-Arrives (λ e. e.action) _ _ m w

  pub next-Arrives :
      (m : Machine W) (w : W) (buttons ticks period v : ℕ) (act : Behaviour W) (a : Atomics)
      (w' : W)
      → Ready (next_of buttons) m act
      → act m.atomics w ≡ (returns v, a, w')
      → Arrives m v a w' (next m w buttons ticks period)
  unfolding next
  next-Arrives m w buttons = guarded-Arrives (next_of buttons) _ _ m w

  -- `run` and `next` each either make a step, through the callback of the current state, which has to be
  -- valid, and with the mutex, into the state that the callback returned, and record it; or they fail,
  -- return false and leave the machine in `ERROR`. In every case the mutex is given back.
  pub run-Steps :
      (m : Machine W) (w : W) (buttons ticks period : ℕ)
      → Steps (λ e. e.action) m w ticks period (run m w ticks period)
        × Steps (next_of buttons) m w ticks period (next m w buttons ticks period)
  unfolding run next
  run-Steps m w buttons ticks period = (
    guarded-Steps (λ e. e.action) _ _ m w ticks period,
    guarded-Steps (next_of buttons) _ _ m w ticks period,
  )

-- ===== src/StateMachine/Names.antt =====
-- lib/StateMachine: the names of the states, in both directions.
use bally_os.Base.{
  ℕ, zero, suc, ◌+◌, ◌-◌, ◌<◌, ◌≡◌, refl, ap, sym, ◌∙◌, ◌↔◌, Bool, true, false, ◌&&◌, Option, none,
  some, List, [], ◌∷◌, map, arith, ltb, leb, ◌==◌, if◌then◌else◌, Bool-cases, inl, inr, codes,
  subst, ◌⊎◌,
}
use bally_os.StateMachine.State

unfoldable pub state_to_string : ℕ → List ℕ
state_to_string state =
    if state == State.none_state
    then codes "NONE"
    else if state == State.setup
    then codes "SETUP"
    else if state == State.wait
    then codes "WAIT"
    else if state == State.calibrate
    then codes "CALIBRATE"
    else if state == State.debug
    then codes "DEBUG"
    else if state == State.run
    then codes "RUN"
    else if state == State.finish
    then codes "FINISH"
    else if state == State.telemetry
    then codes "TELEMETRY"
    else if state == State.error
    then codes "ERROR"
    else if state == State.comm_config
    then codes "COMM_CONFIG"
    else codes "UNKNOWN"

unfoldable pub verify_state : ℕ → Bool
verify_state state = ltb State.none_state state && ltb state State.number_of_states

-- A lower-case letter of ASCII raised.
abbrev pub upper : ℕ → ℕ
upper c = if leb b'a' c && leb c b'z' then c - 32 else c

-- The inner loop of `stateFromString`: both texts end together, at the first 0 of each.
unfoldable pub same_name : List ℕ → List ℕ → Bool
same_name [] [] = true
same_name [] (b ∷ others) = false
same_name (a ∷ rest) [] = false
same_name (a ∷ rest) (b ∷ others) = a == upper b && same_name rest others

-- The outer loop, from `candidate` on, for `left` states.
unfoldable pub find_state : List ℕ → ℕ → ℕ → ℕ
unfolding same_name state_to_string
find_state name candidate zero = State.none_state
find_state name candidate (suc left) =
    let rest = find_state name (candidate + 1) left in
    if same_name (state_to_string candidate) name then candidate else rest

-- The name is null or a C string, given without its closing 0.
unfoldable pub state_from_string : Option (List ℕ) → ℕ
unfolding find_state
state_from_string none = State.none_state
state_from_string (some name) = find_state name 1 9

upper-upper : (c : ℕ) → upper (upper c) ≡ upper c
upper-upper c = ground arith

same_name_iff : (text name : List ℕ) → (same_name text name ≡ true) ↔ (map upper name ≡ text)
unfolding same_name
same_name_iff [] [] = ground arith
same_name_iff [] (b ∷ others) = ground arith
same_name_iff (a ∷ rest) [] = ground arith
same_name_iff (a ∷ rest) (b ∷ others) = ground (arith, same_name_iff rest others)

same_name-map : (text name : List ℕ) → same_name text (map upper name) ≡ same_name text name
unfolding same_name
same_name-map [] [] = refl
same_name-map [] (b ∷ others) = refl
same_name-map (a ∷ rest) [] = refl
same_name-map (a ∷ rest) (b ∷ others) = rw (upper-upper b, same_name-map rest others)

find_state-map :
    (name : List ℕ) (c left : ℕ) → find_state (map upper name) c left ≡ find_state name c left
unfolding find_state
find_state-map name c zero = refl
find_state-map name c (suc left) =
    rw (same_name-map (state_to_string c) name, find_state-map name (c + 1) left)

-- A state that the loop returns has the name.
find_state-same :
    (name : List ℕ) (c left : ℕ)
    → (find_state name c left ≡ State.none_state)
      ⊎ (same_name (state_to_string (find_state name c left)) name ≡ true)
unfolding find_state
find_state-same name c zero = inl refl
find_state-same name c (suc left) = elim (Bool-cases (same_name (state_to_string c) name)) [
  | inl e ↦ rw e (inr e)
  | inr e ↦ rw e (find_state-same name (c + 1) left)
]

find_state_self : (s : ℕ) → 0 < s → s < 10 → find_state (state_to_string s) 1 9 ≡ s
unfolding find_state state_to_string
find_state_self zero low high = absurd (omega arith)
find_state_self (suc zero) low high = refl
find_state_self (suc (suc zero)) low high = refl
find_state_self (suc (suc (suc zero))) low high = refl
find_state_self (suc (suc (suc (suc zero)))) low high = refl
find_state_self (suc (suc (suc (suc (suc zero))))) low high = refl
find_state_self (suc (suc (suc (suc (suc (suc zero)))))) low high = refl
find_state_self (suc (suc (suc (suc (suc (suc (suc zero))))))) low high = refl
find_state_self (suc (suc (suc (suc (suc (suc (suc (suc zero)))))))) low high = refl
find_state_self (suc (suc (suc (suc (suc (suc (suc (suc (suc zero))))))))) low high = refl
find_state_self (suc (suc (suc (suc (suc (suc (suc (suc (suc (suc s)))))))))) low high =
    absurd (omega arith)

pub verify_state_iff : (s : ℕ) → (verify_state s ≡ true) ↔ ((0 < s) × (s < 10))
unfolding verify_state
verify_state_iff s = ground arith

-- For a valid state, `stateFromString` reads a text as that state exactly when the text is the state's
-- own name, in any mix of upper and lower case.
pub state_from_string-state_to_string :
    (s : ℕ) (name : List ℕ)
    → verify_state s ≡ true
    → (state_from_string (some name) ≡ s) ↔ (map upper name ≡ state_to_string s)
unfolding state_from_string
state_from_string-state_to_string s name valid =
    let (low, high) = (verify_state_iff s).0 valid in
    (
      (λ e. elim (find_state-same name 1 9) [
        | inl z ↦ absurd (omega (arith, z, e))
        | inr same ↦
            (same_name_iff (state_to_string s) name).0
              (subst (λ x. same_name (state_to_string x) name ≡ true) e same)
      ]),
      (λ e.
          sym (find_state-map name 1 9)
          ∙ ap (λ x. find_state x 1 9) e
          ∙ find_state_self s low high),
    )

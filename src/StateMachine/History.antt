-- ===== src/StateMachine/History.antt =====
-- lib/StateMachine: the ring of the last transitions.
use bally_os.Base.{
  ℕ, zero, suc, ◌+◌, ◌-◌, ◌*◌, ◌%◌, ◌≤◌, ◌<◌, min, ◌≡◌, refl, ap, sym, ◌∙◌, ◌≢◌, List, [], ◌∷◌,
  arith, length, get_or, set, take, take-take, replicate, length-set, get_or-set_self,
  get_or-set_ne, ltb, ◌==◌, if◌then◌else◌, u32, Bool-cases, inl, inr,
}

pub record TransitionRecord : Type 0 where
  pub from : ℕ
  pub to : ℕ
  pub uptime_ms : ℕ

abbrev pub no_record : TransitionRecord
no_record = record { from = 0; to = 0; uptime_ms = 0 }

-- `kHistoryDepth`.
abbrev pub history_depth : ℕ
history_depth = 8

pub record Ring : Type 0 where
  pub records : List TransitionRecord
  pub head : ℕ
  pub count : ℕ

abbrev pub empty_ring : Ring
empty_ring = record { records = replicate history_depth no_record; head = 0; count = 0 }

-- A ring after a new record.
unfoldable pub append : Ring → TransitionRecord → Ring
append r t = record {
  records = set r.records r.head t;
  head = (r.head + 1) % history_depth;
  count = if ltb r.count history_depth then r.count + 1 else r.count;
}

-- `recordTransition`, at a tick of the kernel's clock; `period` is `portTICK_PERIOD_MS`.
unfoldable pub record_transition : Ring → ℕ → ℕ → ℕ → ℕ → Ring
unfolding append
record_transition r from_state to_state ticks period =
    if from_state == to_state
    then r
    else append r
        (record { from = from_state; to = to_state; uptime_ms = u32 (u32 ticks * u32 period) })

-- The copying loop of `history`: `n` more records, from the `i`-th newest on.
unfoldable pub newest : Ring → ℕ → ℕ → List TransitionRecord
newest r i zero = []
newest r i (suc n) =
    get_or r.records ((r.head + history_depth - 1 - i) % history_depth) no_record
    ∷ newest r (i + 1) n

-- What `history` copies out under the mutex.
unfoldable pub recent : Ring → ℕ → List TransitionRecord
unfolding newest
recent r max_records = newest r 0 (if ltb max_records r.count then max_records else r.count)

pub record RingOk (r : Ring) : Type 0 where
  pub size : length r.records ≡ history_depth
  pub head_lt : r.head < history_depth
  pub count_le : r.count ≤ history_depth

pub empty_ring-RingOk : RingOk empty_ring
empty_ring-RingOk = record { size = refl; head_lt = omega arith; count_le = omega arith }

pub append-RingOk : (r : Ring) (t : TransitionRecord) → RingOk r → RingOk (append r t)
unfolding append
append-RingOk r t o = record {
  size = length-set r.records r.head t ∙ o.size;
  head_lt = omega arith;
  count_le = elim (Bool-cases (ltb r.count 8)) [
    | inl e ↦ ground (arith, o.count_le)
    | inr e ↦ ground (arith, o.count_le)
  ];
}

-- The index of the newest record.
index_newest : (h : ℕ) → h < 8 → ((h + 1) % 8 + 8 - 1 - 0) % 8 ≡ h
index_newest h lt = omega arith

-- The other records keep their places.
index_older : (h i : ℕ) → h < 8 → i < 7 → ((h + 1) % 8 + 8 - 1 - (i + 1)) % 8 ≡ (h + 8 - 1 - i) % 8
index_older h i lt li = omega arith

index_free : (h i : ℕ) → h < 8 → i < 7 → h ≢ (h + 8 - 1 - i) % 8
index_free h i lt li e = omega arith

newest-append :
    (r : Ring) (t : TransitionRecord) (n i : ℕ)
    → RingOk r
    → i + n < 8
    → newest (append r t) (i + 1) n ≡ newest r i n
unfolding newest append
newest-append r t zero i o le = refl
newest-append r t (suc n) i o le = rw (index_older r.head i o.head_lt (omega arith)) (
    rw (get_or-set_ne r.records t no_record (index_free r.head i o.head_lt (omega arith))) (
      ap (λ x. get_or r.records ((r.head + 8 - 1 - i) % 8) no_record ∷ x)
        (newest-append r t n (i + 1) o (omega arith))))

take-newest : (r : Ring) (n i m : ℕ) → take m (newest r i n) ≡ newest r i (min m n)
unfolding newest
take-newest r zero i zero = ap (newest r i) {x = 0} {y = min 0 0} (omega arith)
take-newest r zero i (suc m) = ap (newest r i) {x = 0} (omega arith)
take-newest r (suc n) i zero = ap (newest r i) {x = 0} (omega arith)
take-newest r (suc n) i (suc m) =
    ap (λ x. get_or r.records ((r.head + 8 - 1 - i) % 8) no_record ∷ x) (take-newest r n (i + 1) m)
    ∙ ap (newest r i) {x = suc (min m n)} (omega arith)

recent_lem : (r : Ring) (m : ℕ) → recent r m ≡ newest r 0 (min m r.count)
unfolding recent
recent_lem r m = ap (newest r 0) (ground arith)

recent-take : (r : Ring) (m : ℕ) → RingOk r → recent r m ≡ take m (recent r 8)
recent-take r m o =
    recent_lem r m
    ∙ ap (newest r 0) {y = min m (min 8 r.count)} (omega (arith, o.count_le))
    ∙ sym (take-newest r (min 8 r.count) 0 m)
    ∙ ap (take m) (sym (recent_lem r 8))

append-count :
    (r : Ring) (t : TransitionRecord) → RingOk r → (append r t).count ≡ suc (min 7 r.count)
unfolding append
append-count r t o = elim (Bool-cases (ltb r.count 8)) [
  | inl e ↦ ground (arith, o.count_le)
  | inr e ↦ ground (arith, o.count_le)
]

newest_first :
    (r : Ring) (t : TransitionRecord) (n : ℕ)
    → RingOk r
    → n < 8
    → newest (append r t) 0 (suc n) ≡ t ∷ newest r 0 n
unfolding newest append
newest_first r t n o lt =
    ap (λ i. get_or (set r.records r.head t) i no_record ∷ newest (append r t) 1 n)
      (index_newest r.head o.head_lt)
    ∙ ap (λ x. x ∷ newest (append r t) 1 n)
        (get_or-set_self r.records r.head t no_record (omega (arith, o.size, o.head_lt)))
    ∙ ap (λ x. t ∷ x) (newest-append r t n 0 o (omega arith))

recent-append :
    (r : Ring) (t : TransitionRecord) → RingOk r → recent (append r t) 8 ≡ t ∷ take 7 (recent r 8)
recent-append r t o =
    recent_lem (append r t) 8
    ∙ ap (newest (append r t) 0) {y = suc (min 7 r.count)} (omega (arith, append-count r t o))
    ∙ newest_first r t (min 7 r.count) o (omega arith)
    ∙ ap (λ x. t ∷ newest r 0 x) {y = min 7 (min 8 r.count)} (omega arith)
    ∙ ap (λ x. t ∷ x) (sym (take-newest r (min 8 r.count) 0 7) ∙ ap (take 7) (sym (recent_lem r 8)))

-- A transition, as `recordTransition` is told of it.
pub record Transition : Type 0 where
  pub old : ℕ
  pub new : ℕ
  pub ticks : ℕ

module _ (period : ℕ) where
  -- The ring after some transitions, given with the last one first.
  unfoldable pub ring_after : List Transition → Ring
  unfolding record_transition
  ring_after [] = empty_ring
  ring_after (t ∷ earlier) = record_transition (ring_after earlier) t.old t.new t.ticks period

  abbrev pub record_of : Transition → TransitionRecord
  record_of t = record { from = t.old; to = t.new; uptime_ms = u32 (u32 t.ticks * u32 period) }

  -- The records of those that change the state.
  abbrev pub changes : List Transition → List TransitionRecord
  changes [] = []
  changes (t ∷ earlier) =
      let rest = changes earlier in if t.old == t.new then rest else record_of t ∷ rest

  ring_after-RingOk : (ts : List Transition) → RingOk (ring_after ts)
  unfolding ring_after
  ring_after-RingOk [] = empty_ring-RingOk
  ring_after-RingOk (t ∷ earlier) = elim (Bool-cases (t.old == t.new)) [
    | inl e ↦ rw e (ring_after-RingOk earlier)
    | inr e ↦ rw e (append-RingOk (ring_after earlier) _ (ring_after-RingOk earlier))
  ]

  recent_all : (ts : List Transition) → recent (ring_after ts) 8 ≡ take 8 (changes ts)
  unfolding ring_after
  recent_all [] = unfold recent newest in refl
  recent_all (t ∷ earlier) = elim (Bool-cases (t.old == t.new)) [
    | inl e ↦ rw e (recent_all earlier)
    | inr e ↦ rw e (
        recent-append (ring_after earlier) (record_of t) (ring_after-RingOk earlier)
        ∙ ap (λ x. record_of t ∷ take 7 x) (recent_all earlier)
        ∙ ap (λ x. record_of t ∷ x) (take-take 7 8 (changes earlier) (omega arith)))
  ]

  -- After any transitions, `history` gives the records of the last eight of them that changed the state,
  -- newest first, and of these at most as many as were asked for.
  pub recent-changes :
      (ts : List Transition) (max_records : ℕ)
      → recent (ring_after ts) max_records ≡ take max_records (take 8 (changes ts))
  recent-changes ts max_records =
      recent-take (ring_after ts) max_records (ring_after-RingOk ts)
      ∙ ap (take max_records) (recent_all ts)

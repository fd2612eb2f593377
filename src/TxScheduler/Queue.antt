-- ===== src/TxScheduler/Queue.antt =====
-- lib/TxScheduler/TxScheduler.h: the classes of frames, their capacities, and one ring of frames.
use bally_os.Base.{
  ℕ, ◌+◌, ◌-◌, ◌%◌, Bool, true, false, Option, none, some, List, [], ◌∷◌, get_or, set, replicate,
  ◌==◌, if◌then◌else◌, ◌≡◌, ◌≢◌, sym, subst, inl, inr, arith, Bool-cases,
}

pub data Priority : Type 0 where
  command_result status terminal critical_log telemetry debug : Priority

-- The value of the enumerator.
abbrev pub index : Priority → ℕ
index command_result = 0
index status = 1
index terminal = 2
index critical_log = 3
index telemetry = 4
index debug = 5

-- In the order of the loops from 0 to `kPriorityCount`.
abbrev pub priorities : List Priority
priorities = command_result ∷ status ∷ terminal ∷ critical_log ∷ telemetry ∷ debug ∷ []

-- `kQueueCapacity`.
abbrev pub capacity : Priority → ℕ
capacity command_result = 8
capacity status = 16
capacity terminal = 16
capacity critical_log = 8
capacity telemetry = 16
capacity debug = 8

abbrev pub max_capacity : ℕ
max_capacity = 16

-- A write to one cell of an array that a class indexes.
abbrev pub update {ℓ} : {A : Type ℓ} → (Priority → A) → Priority → A → Priority → A
update f p a p' = if index p == index p' then a else f p'

-- The first `size` octets of the buffer; those behind them are never read.
pub record EncodedFrame : Type 0 where
  pub size : ℕ
  pub bytes : List ℕ

abbrev pub empty_frame : EncodedFrame
empty_frame = record { size = 0; bytes = [] }

pub record FrameQueue : Type 0 where
  pub frames : List EncodedFrame
  pub read : ℕ
  pub write : ℕ
  pub count : ℕ
  pub lock : Bool

abbrev pub empty_queue : FrameQueue
empty_queue = record {
  frames = replicate max_capacity empty_frame;
  read = 0;
  write = 0;
  count = 0;
  lock = false;
}

-- The write of `enqueue` into a queue with room.
unfoldable pub push : ℕ → FrameQueue → EncodedFrame → FrameQueue
push cap q frame = record q {
  frames = set q.frames q.write frame;
  write = (q.write + 1) % cap;
  count = q.count + 1;
}

unfoldable pub pop_queue : ℕ → FrameQueue → Option (EncodedFrame × FrameQueue)
pop_queue cap q =
    if q.lock
    then none
    else if q.count == 0
    then none
    else some (
      get_or q.frames q.read empty_frame,
      record q { read = (q.read + 1) % cap; count = q.count - 1 },
    )

pub index-injective : (p p' : Priority) → (index p == index p') ≡ true → p ≡ p'
index-injective p p' h = ground arith

module _ {ℓ} {A : Type ℓ} where
  pub update_self : (f : Priority → A) (p : Priority) (a : A) → update f p a p ≡ a
  update_self f p a = ground arith

  pub update_ne :
      (f : Priority → A) (p : Priority) (a : A) (p' : Priority) → p' ≢ p → update f p a p' ≡ f p'
  update_ne f p a p' ne = elim (Bool-cases (index p == index p')) [
    | inl e ↦ absurd (ne (sym (index-injective p p' e)))
    | inr e ↦ rw e
  ]

-- A property of every cell, after a write.
pub update_all {ℓ κ} :
    {A : Type ℓ} (P : Priority → A → Type κ) (f : Priority → A) (p : Priority) (a : A)
    → ((p' : Priority) → P p' (f p'))
    → P p a
    → (p' : Priority) → P p' (update f p a p')
update_all P f p a all here p' = elim (Bool-cases (index p == index p')) [
  | inl e ↦ rw e (subst (λ x. P x a) (index-injective p p' e) here)
  | inr e ↦ rw e (all p')
]

-- ===== src/JobScheduler.antt =====
-- lib/JobScheduler: time- and state-triggered shell commands. A `const char*` is an optional list of
-- character codes without the terminator; the executor bound by `configure` is a function over a
-- world `W`, which stands for its context. `poll` and what it calls are in JobScheduler/Poll.antt.
pub mod Command
pub mod Slots
pub mod Poll
pub mod Table
pub mod Admission
pub mod Invariant
pub mod Ids
mod Examples
use Command.{is_job_command}
use Slots.{
  Job, Kind, interval, once, on_state_enter, empty_job, find_free, cancel_in, cancel_all_in,
  count_active, views, JobView,
}
use bally_os.Base.{
  ℕ, ◌+◌, Bool, true, false, Option, none, some, List, [], ◌∷◌, length, get_or, set, modify,
  replicate, ltb, ◌==◌, if◌then◌else◌, u8, u32,
}

pub data Error : Type 0 where
  ok full empty_command command_too_long bad_interval recursive not_configured : Error

pub record Stats : Type 0 where
  pub fired : ℕ
  pub submit_failed : ℕ
  pub rejected : ℕ
  pub skipped_late : ℕ

abbrev pub zero_stats : Stats
zero_stats = record { fired = 0; submit_failed = 0; rejected = 0; skipped_late = 0 }

-- Runs one command line in a world; `false` when the line was not accepted.
abbrev pub SubmitFn : Type 0 → Type 0
SubmitFn W = W → List ℕ → Bool × W

pub record Scheduler (W : Type 0) : Type 0 where
  pub jobs : List Job
  pub submit : Option (SubmitFn W)
  pub stats : Stats
  pub next_id : ℕ
  pub last_state : ℕ

abbrev pub max_jobs : ℕ
max_jobs = 8

abbrev pub max_command_length : ℕ
max_command_length = 96

abbrev pub no_state : ℕ
no_state = 255

-- What `allocate` hands back: an error, or the index of the slot that it took.
pub data Allocation : Type 0 where
  refused : Error → Allocation
  slot : ℕ → Allocation

module _ {W : Type 0} where
  unfoldable pub init : Scheduler W
  init = record {
    jobs = replicate max_jobs empty_job;
    submit = none;
    stats = zero_stats;
    next_id = 1;
    last_state = no_state;
  }

  unfoldable pub configure : Scheduler W → Option (SubmitFn W) → Scheduler W
  configure s f = record s { submit = f }

  unfoldable pub reject : Scheduler W → Scheduler W
  reject s = record s { stats = record stats { rejected = u32 (stats.rejected + 1) } }
    where
      open s use {stats}

  -- The slot search of `allocate`, once the command has passed.
  unfoldable pub take_slot : Scheduler W → List ℕ → Scheduler W × Allocation
  unfolding reject
  take_slot s command = elim (find_free s.jobs) [
    | none ↦ (reject s, refused full)
    | some i ↦ (
      record s {
        jobs = set s.jobs i (record empty_job { active = true; id = s.next_id; command = command });
        next_id = if s.next_id == 255 then 1 else u8 (s.next_id + 1);
      },
      slot i,
    )
  ]

  -- The tests on the text, in their order.
  unfoldable pub check_text : Scheduler W → List ℕ → Scheduler W × Allocation
  unfolding take_slot
  check_text s [] = (reject s, refused empty_command)
  check_text s (c ∷ cs) =
      if ltb max_command_length (length (c ∷ cs))
      then (reject s, refused command_too_long)
      else if is_job_command (some (c ∷ cs))
      then (reject s, refused recursive)
      else take_slot s (c ∷ cs)

  unfoldable pub allocate : Scheduler W → Option (List ℕ) → Scheduler W × Allocation
  unfolding check_text
  allocate s command = elim s.submit [
    | none ↦ (reject s, refused not_configured)
    | some f ↦ elim command [
      | none ↦ (reject s, refused empty_command)
      | some text ↦ check_text s text
    ]
  ]

  -- The writes through the slot pointer, and the id that goes to `id_out`.
  unfoldable pub fill : Scheduler W × Allocation → (Job → Job) → Scheduler W × Error × Option ℕ
  fill (s, refused e) f = (s, e, none)
  fill (s, slot i) f =
      let jobs' = modify s.jobs i f in
      (record s { jobs = jobs' }, ok, some (get_or jobs' i empty_job).id)

  unfoldable pub schedule_interval :
      Scheduler W → ℕ → ℕ → Option (List ℕ) → Scheduler W × Error × Option ℕ
  unfolding allocate fill
  schedule_interval s interval_ms repeat command =
      if interval_ms == 0
      then (reject s, bad_interval, none)
      else fill (allocate s command)
          (λ job. record job { kind = interval; interval_ms = interval_ms; remaining = repeat })

  unfoldable pub schedule_once : Scheduler W → ℕ → Option (List ℕ) → Scheduler W × Error × Option ℕ
  unfolding allocate fill
  schedule_once s delay_ms command =
      if delay_ms == 0
      then (reject s, bad_interval, none)
      else fill (allocate s command)
          (λ job. record job { kind = once; interval_ms = delay_ms; remaining = 1 })

  unfoldable pub schedule_on_state :
      Scheduler W → ℕ → Option (List ℕ) → Scheduler W × Error × Option ℕ
  unfolding allocate fill
  schedule_on_state s state command =
      fill (allocate s command)
        (λ job. record job { kind = on_state_enter; state = state; interval_ms = 0; remaining = 0 })

  unfoldable pub cancel : Scheduler W → ℕ → Scheduler W × Bool
  cancel s id = let (jobs', found) = cancel_in s.jobs id in (record s { jobs = jobs' }, found)

  unfoldable pub cancel_all : Scheduler W → Scheduler W × ℕ
  cancel_all s = let (jobs', n) = cancel_all_in s.jobs in (record s { jobs = jobs' }, n)

  -- `out == nullptr` is `max_count` 0: both write nothing and return 0.
  unfoldable pub list : Scheduler W → ℕ → List JobView
  list s max_count = views s.jobs max_count

  unfoldable pub active_count : Scheduler W → ℕ
  active_count s = count_active s.jobs

  unfoldable pub reset_stats : Scheduler W → Scheduler W
  reset_stats s = record s { stats = zero_stats }

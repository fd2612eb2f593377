-- ===== src/JobScheduler/Admission.antt =====
-- Which schedule calls of lib/JobScheduler are admitted, and what each outcome changes.
use bally_os.Base.{
  ℕ, ◌+◌, u8, ◌≤◌, ◌<◌, ◌≡◌, refl, ◌⊎◌, inl, inr, ◌≢◌, ◌↔◌, true, false, Option, none, some, List,
  [], ◌∷◌, arith, length, get_or, set, subst, ltb, ◌==◌, if◌then◌else◌, get_or-set_self, length-set,
  Bool-cases, Option-cases,
}
use bally_os.JobScheduler.Command.{is_job_command}
use bally_os.JobScheduler.Slots.{
  Job, interval, once, on_state_enter, empty_job, find_free, count_active,
}
use bally_os.JobScheduler.Table.{
  FindsFree, find_free-FindsFree, modify-set, count_active-set, count_active-le,
}
use bally_os.JobScheduler.{
  Scheduler, SubmitFn, Error, ok, max_command_length, reject, take_slot, check_text, allocate, fill,
  schedule_interval, schedule_once, schedule_on_state,
}

-- A text that the scheduler takes: not empty, not too long, and no command of its own.
abbrev pub IsCommand : List ℕ → Type 0
IsCommand text =
    (text ≢ []) × (length text ≤ max_command_length) × (is_job_command (some text) ≡ false)

abbrev pub IsConfigured : {W : Type 0} → Scheduler W → Type 0
IsConfigured s = s.submit ≢ none

-- The job that a slot holds before its kind is filled in.
abbrev pub fresh : ℕ → List ℕ → Job
fresh id text = record empty_job { active = true; id = id; command = text }

-- Ids run from 1 to 255 and start again.
abbrev pub next_of : ℕ → ℕ
next_of id = if id == 255 then 1 else u8 (id + 1)

module _ {W : Type 0} where
  -- The two outcomes of a schedule call: one free slot gets the job and the caller its id, or
  -- nothing changes but the count of refusals.
  abbrev pub Outcome :
      Scheduler W → Option (List ℕ) → (Job → Job) → Scheduler W × Error × Option ℕ → Type 0
  Outcome s command f (s', e, id) =
      ((text : List ℕ) × (i : ℕ) × (e ≡ ok)
        × (command ≡ some text)
        × IsCommand text
        × (i < length s.jobs)
        × ((get_or s.jobs i empty_job).active ≡ false)
        × (s'.jobs ≡ set s.jobs i (f (fresh s.next_id text)))
        × (id ≡ some (f (fresh s.next_id text)).id)
        × (s'.stats ≡ s.stats)
        × (s'.next_id ≡ next_of s.next_id))
      ⊎ ((e ≢ ok) × (s' ≡ reject s) × (id ≡ none))

  take_slot-Outcome :
      (s : Scheduler W) (text : List ℕ) (f : Job → Job)
      → IsCommand text
      → Outcome s (some text) f (fill (take_slot s text) f)
  unfolding take_slot fill
  take_slot-Outcome s text f c = go (find_free s.jobs) (find_free-FindsFree s.jobs) refl
    where
      go :
          (o : Option ℕ)
          → FindsFree s.jobs o
          → find_free s.jobs ≡ o
          → Outcome s (some text) f (fill (take_slot s text) f)
      go none h e = rw (e, take_slot) (inr ((λ q. cc), refl, refl))
      go (some i) h e =
          rw (e, take_slot)
            (inl (
              text,
              i,
              refl,
              refl,
              c,
              h.0,
              h.1,
              modify-set s.jobs i (fresh s.next_id text) f,
              rw (
                modify-set s.jobs i (fresh s.next_id text) f,
                get_or-set_self s.jobs i _ empty_job h.0,
              ),
              refl,
              refl,
            ))

  check_text-Outcome :
      (s : Scheduler W) (text : List ℕ) (f : Job → Job)
      → Outcome s (some text) f (fill (check_text s text) f)
  unfolding check_text fill
  check_text-Outcome s [] f = inr ((λ q. cc), refl, refl)
  check_text-Outcome s (c ∷ cs) f = elim (Bool-cases (ltb max_command_length (length (c ∷ cs)))) [
    | inl long ↦ rw (long, check_text) (inr ((λ q. cc), refl, refl))
    | inr fits ↦ elim (Bool-cases (is_job_command (some (c ∷ cs)))) [
      | inl own ↦ rw (fits, check_text) (rw (own, check_text) (inr ((λ q. cc), refl, refl)))
      | inr other ↦
          rw (fits, check_text)
            (rw (other, check_text)
              (take_slot-Outcome s (c ∷ cs) f ((λ q. cc), ground arith, other)))
    ]
  ]

  allocate-configured :
      (s : Scheduler W) (text : List ℕ) {g : SubmitFn W}
      → s.submit ≡ some g
      → allocate s (some text) ≡ check_text s text
  unfolding allocate
  allocate-configured s text e = ground arith

  allocate-Outcome :
      (s : Scheduler W) (command : Option (List ℕ)) (f : Job → Job)
      → Outcome s command f (fill (allocate s command) f)
  unfolding allocate fill
  allocate-Outcome s none f = elim (Option-cases s.submit) [
    | inl e ↦ simp (e, allocate) (inr ((λ q. cc), refl, refl))
    | inr (g, e) ↦ simp (e, allocate) (inr ((λ q. cc), refl, refl))
  ]
  allocate-Outcome s (some text) f = elim (Option-cases s.submit) [
    | inl e ↦ simp (e, allocate) (inr ((λ q. cc), refl, refl))
    | inr (g, e) ↦ rw (allocate-configured s text e) (check_text-Outcome s text f)
  ]

  -- With an executor, a free slot and a good text the call is admitted.
  take_slot-ok :
      (s : Scheduler W) (text : List ℕ) (f : Job → Job)
      → count_active s.jobs < length s.jobs
      → (fill (take_slot s text) f).1 ≡ ok
  unfolding take_slot fill
  take_slot-ok s text f room = go (find_free s.jobs) (find_free-FindsFree s.jobs) refl
    where
      go :
          (o : Option ℕ)
          → FindsFree s.jobs o
          → find_free s.jobs ≡ o
          → (fill (take_slot s text) f).1 ≡ ok
      go none h e = absurd (omega arith)
      go (some i) h e = rw (e, take_slot)

  check_text-ok :
      (s : Scheduler W) (text : List ℕ) (f : Job → Job)
      → IsCommand text
      → count_active s.jobs < length s.jobs
      → (fill (check_text s text) f).1 ≡ ok
  unfolding check_text
  check_text-ok s [] f c room = absurd (c.0 refl)
  check_text-ok s (x ∷ xs) f c room = elim (Bool-cases (ltb max_command_length (length (x ∷ xs)))) [
    | inl long ↦ absurd (ground arith)
    | inr fits ↦ rw (fits, check_text) (rw (c.2, check_text) (take_slot-ok s (x ∷ xs) f room))
  ]

  allocate-ok :
      (s : Scheduler W) (text : List ℕ) (f : Job → Job)
      → IsConfigured s
      → IsCommand text
      → count_active s.jobs < length s.jobs
      → (fill (allocate s (some text)) f).1 ≡ ok
  unfolding allocate
  allocate-ok s text f conf c room = elim (Option-cases s.submit) [
    | inl e ↦ absurd (conf e)
    | inr (g, e) ↦ rw (allocate-configured s text e) (check_text-ok s text f c room)
  ]

  allocate-IsConfigured :
      (s : Scheduler W) (command : Option (List ℕ)) (f : Job → Job)
      → (fill (allocate s command) f).1 ≡ ok
      → IsConfigured s
  unfolding allocate fill
  allocate-IsConfigured s command f h e = let h' = rw (e, allocate) at h in cc h'

-- The three schedule calls, with the arguments that differ between them.
pub data Request : Type 0 where
  every : ℕ → ℕ → Request
  after : ℕ → Request
  at_state : ℕ → Request

-- What each call writes into the slot that it was given.
abbrev pub job_of : Request → Job → Job
job_of (every interval_ms repeat) job = record job {
  kind = interval;
  interval_ms = interval_ms;
  remaining = repeat;
}
job_of (after delay_ms) job = record job { kind = once; interval_ms = delay_ms; remaining = 1 }
job_of (at_state state) job = record job {
  kind = on_state_enter;
  state = state;
  interval_ms = 0;
  remaining = 0;
}

abbrev pub IsTimed : Request → Type 0
IsTimed (every interval_ms repeat) = interval_ms ≢ 0
IsTimed (after delay_ms) = delay_ms ≢ 0
IsTimed (at_state state) = Unit

module _ {W : Type 0} where
  abbrev pub schedule : Scheduler W → Request → Option (List ℕ) → Scheduler W × Error × Option ℕ
  schedule s (every interval_ms repeat) command = schedule_interval s interval_ms repeat command
  schedule s (after delay_ms) command = schedule_once s delay_ms command
  schedule s (at_state state) command = schedule_on_state s state command

  -- Every schedule call has one of two outcomes. Either the error is `ok`, the text passed the tests,
  -- one inactive slot now holds an active job of the kind, interval, count and text asked for, under
  -- the next id, which is returned, and no other slot and no statistic changed; or an error is
  -- returned, no id, and nothing changed but the count of refusals.
  pub schedule-Outcome :
      (s : Scheduler W) (r : Request) (command : Option (List ℕ))
      → Outcome s command (job_of r) (schedule s r command)
  unfolding schedule_interval schedule_once schedule_on_state
  schedule-Outcome s (every n k) command = elim (Bool-cases (n == 0)) [
    | inl e ↦ rw (e, schedule_interval) (inr ((λ q. cc), refl, refl))
    | inr e ↦ rw (e, schedule_interval) (allocate-Outcome s command (job_of (every n k)))
  ]
  schedule-Outcome s (after n) command = elim (Bool-cases (n == 0)) [
    | inl e ↦ rw (e, schedule_once) (inr ((λ q. cc), refl, refl))
    | inr e ↦ rw (e, schedule_once) (allocate-Outcome s command (job_of (after n)))
  ]
  schedule-Outcome s (at_state n) command = allocate-Outcome s command (job_of (at_state n))

  pub schedule-IsTimed :
      (s : Scheduler W) (r : Request) (command : Option (List ℕ))
      → (schedule s r command).1 ≡ ok
      → IsTimed r × IsConfigured s
  unfolding schedule_interval schedule_once schedule_on_state
  schedule-IsTimed s (every n k) command h = elim (Bool-cases (n == 0)) [
    | inl e ↦ cc (rw (e, schedule_interval) at h)
    | inr e ↦ (
      (λ z. ground arith),
      allocate-IsConfigured s command (job_of (every n k)) (rw (e, schedule_interval) at h),
    )
  ]
  schedule-IsTimed s (after n) command h = elim (Bool-cases (n == 0)) [
    | inl e ↦ cc (rw (e, schedule_once) at h)
    | inr e ↦ (
      (λ z. ground arith),
      allocate-IsConfigured s command (job_of (after n)) (rw (e, schedule_once) at h),
    )
  ]
  schedule-IsTimed s (at_state n) command h =
      (tt, allocate-IsConfigured s command (job_of (at_state n)) h)

  schedule-ok :
      (s : Scheduler W) (r : Request) (text : List ℕ)
      → IsConfigured s
      → IsTimed r
      → IsCommand text
      → count_active s.jobs < length s.jobs
      → (schedule s r (some text)).1 ≡ ok
  unfolding schedule_interval schedule_once schedule_on_state
  schedule-ok s (every n k) text conf t c room = elim (Bool-cases (n == 0)) [
    | inl e ↦ absurd (ground arith)
    | inr e ↦ rw (e, schedule_interval) (allocate-ok s text _ conf c room)
  ]
  schedule-ok s (after n) text conf t c room = elim (Bool-cases (n == 0)) [
    | inl e ↦ absurd (ground arith)
    | inr e ↦ rw (e, schedule_once) (allocate-ok s text _ conf c room)
  ]
  schedule-ok s (at_state n) text conf t c room = allocate-ok s text _ conf c room

  room_of_Outcome :
      (s : Scheduler W) (text : List ℕ) (f : Job → Job) (r : Scheduler W × Error × Option ℕ)
      → Outcome s (some text) f r
      → r.1 ≡ ok
      → IsCommand text × (count_active s.jobs < length s.jobs)
  room_of_Outcome s text f r (inl (text', i, _, same, c, h, free, _, _, _, _)) k = (
    subst IsCommand (ground arith) c,
    omega (
      arith,
      count_active-set s.jobs i (fresh 0 text) h free refl,
      count_active-le (set s.jobs i (fresh 0 text)),
      length-set s.jobs i (fresh 0 text),
    ),
  )
  room_of_Outcome s text f r (inr (bad, _, _)) k = absurd (bad k)

  -- A schedule call is admitted exactly when an executor is bound, an interval or delay is not zero,
  -- the text is a command that is not the scheduler's own and of 1 to 96 characters, and a slot of
  -- the table is free.
  pub schedule-ok_iff :
      (s : Scheduler W) (r : Request) (text : List ℕ)
      → ((schedule s r (some text)).1 ≡ ok)
        ↔ (IsConfigured s × IsTimed r × IsCommand text × (count_active s.jobs < length s.jobs))
  schedule-ok_iff s r text = (
    (λ h.
        let (timed, conf) = schedule-IsTimed s r (some text) h in
        let (good, room) =
          room_of_Outcome s text (job_of r) _ (schedule-Outcome s r (some text)) h in
        (conf, timed, good, room)),
    λ (conf, timed, good, room). schedule-ok s r text conf timed good room,
  )

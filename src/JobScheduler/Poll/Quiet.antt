-- ===== src/JobScheduler/Poll/Quiet.antt =====
-- No catch-up bursts: what a pass leaves scheduled lies ahead of the clock.
use bally_os.Base.{
  ℕ, ◌+◌, ◌^◌, ◌≤◌, ◌<◌, ◌≡◌, refl, ap, ◌∙◌, ◌≢◌, ◌⊎◌, Bool, true, false, some, List, [], ◌∷◌,
  arith, All,
}
use bally_os.JobScheduler.Slots.{Job, on_state_enter}
use bally_os.JobScheduler.Invariant.{JobOk, IsValid}
use bally_os.JobScheduler.{Scheduler, SubmitFn}
use bally_os.JobScheduler.Poll.{
  Pass, poll_job, poll_jobs, state_entered, run_pass, poll, polled, poll-polled,
}
use bally_os.JobScheduler.Poll.Deliveries.{is_due, due_commands, deliver, poll-deliver}

-- The next occurrence, counted from `now`, fits in 64 bits.
abbrev pub InTime : ℕ → Job → Type 0
InTime now j = now + j.interval_ms < 2 ^ 64

module _ {W : Type 0} (submit : SubmitFn W) (now current : ℕ) (entered : Bool) where
  -- A timed job that was due, or had no time yet, is next due after the clock and within one period.
  pub poll_job-next_ms :
      (j : Job) (p : Pass W)
      → JobOk j
      → InTime now j
      → let j' = (poll_job submit now current entered j p).0 in
        j'.active ≡ true
        → j.kind ≢ on_state_enter
        → (now < j'.next_ms) × ((j'.next_ms ≤ now + j.interval_ms) ⊎ (j'.next_ms ≡ j.next_ms))
  unfolding poll_job
  poll_job-next_ms j p o t on timed = ground arith

  poll_job-not_due :
      (j : Job) (p : Pass W)
      → JobOk j
      → InTime now j
      → is_due now current false (poll_job submit now current entered j p).0 ≡ false
  unfolding poll_job
  poll_job-not_due j p o t = ground arith

  poll_jobs-none_due :
      (js : List Job) (p : Pass W)
      → All JobOk js
      → All (InTime now) js
      → due_commands now current false (poll_jobs submit now current entered js p).0 ≡ []
  unfolding poll_jobs due_commands
  poll_jobs-none_due [] p o t = refl
  poll_jobs-none_due (j ∷ js) p o t =
      rw (poll_job-not_due j p o.0 t.0) (poll_jobs-none_due js _ o.1 t.1)

module _ {W : Type 0} where
  state_entered_same :
      (s : Scheduler W) (current : ℕ) → s.last_state ≡ current → state_entered s current ≡ false
  unfolding state_entered
  state_entered_same s current e = ground arith

  polled_nothing_due :
      (s : Scheduler W) (submit : SubmitFn W) (w : W) (now current : ℕ)
      → All JobOk s.jobs
      → All (InTime now) s.jobs
      → let s' = (polled s submit w now current).0 in
        due_commands now current (state_entered s' current) s'.jobs ≡ []
  unfolding run_pass
  polled_nothing_due s submit w now current o t =
      rw (state_entered_same (polled s submit w now current).0 current refl)
        (poll_jobs-none_due submit now current (state_entered s current) s.jobs _ o t)

  -- A second `poll` at the same time and in the same state, after any delay before the first, hands
  -- over nothing: the backlog of a late call is dropped, not replayed. (The clock plus a period stays
  -- below 2^64.)
  pub poll-poll :
      (s : Scheduler W) (submit : SubmitFn W) (w : W) (now current : ℕ)
      → IsValid s
      → s.submit ≡ some submit
      → All (InTime now) s.jobs
      → let (s', n, w') = poll s w now current in
        ((poll s' w' now current).1 ≡ 0) × ((poll s' w' now current).2 ≡ w')
  unfolding run_pass deliver
  poll-poll s submit w now current v e t = rw (poll-polled s submit w now current e) (
      let (s', n, w') = polled s submit w now current in
      let (world, count, fired, failed, rejected) = poll-deliver s' submit w' now current e in
      let none_due = polled_nothing_due s submit w now current v.jobs_ok t in
      (
        count ∙ ap (λ cs. (deliver submit w' cs).0) none_due,
        world ∙ ap (λ cs. (deliver submit w' cs).1) none_due,
      ))

-- ===== src/JobScheduler/Examples.antt =====
-- Runs of lib/JobScheduler, and its theorems at concrete inputs.
use bally_os.Base.{ℕ, ◌≡◌, refl, true, some, List, [], ◌∷◌, ◌++◌, arith, get_or}
use bally_os.JobScheduler.Command.{is_job_command}
use bally_os.JobScheduler.Slots.{empty_job, find_free, cancel_in}
use bally_os.JobScheduler.Admission.{
  every, after, at_state, job_of, Outcome, schedule, schedule-Outcome,
}
use bally_os.JobScheduler.Invariant.{
  IsValid, Call, configures, schedules, polls, cancels, run, run-IsValid,
}
use bally_os.JobScheduler.Ids.{schedule_reuses_id}
use bally_os.JobScheduler.Poll.{poll, poll_job, state_entered}
use bally_os.JobScheduler.Poll.Deliveries.{deliver, due_commands, poll-deliver}
use bally_os.JobScheduler.Poll.Quiet.{poll-poll}
use bally_os.JobScheduler.Poll.Budget
use bally_os.JobScheduler.Poll.Budget.{Limited, Unlimited, polls-Limited, polls-Unlimited}
use bally_os.JobScheduler.{
  Scheduler, SubmitFn, recursive, init, configure, cancel, reject, schedule_interval,
  schedule_on_state, schedule_once,
}

-- An executor that writes down what it is given.
abbrev recorder : SubmitFn (List (List ℕ))
recorder w c = (true, w ++ (c ∷ []))

abbrev go_line : List ℕ
go_line = b'g' ∷ b'o' ∷ []

abbrev job_line : List ℕ
job_line = b' ' ∷ b'J' ∷ b'o' ∷ b'b' ∷ b'-' ∷ b'x' ∷ []

booted : Scheduler (List (List ℕ))
unfolding init configure schedule_interval schedule_on_state is_job_command find_free poll poll_job
    run cancel cancel_in reject
booted = configure init (some recorder)

-- Two firings of "go", 5 ms apart.
loaded : Scheduler (List (List ℕ))
unfolding booted
loaded = (schedule booted (every 5 2) (some go_line)).0

-- Eight jobs for ever.
crowded : Scheduler (List (List ℕ))
unfolding loaded
crowded =
    (run (loaded, [])
      (schedules (every 7 0) (some go_line) ∷ schedules (at_state 3) (some go_line) ∷ [])).0

abbrev history : List (Call (List (List ℕ)))
history =
    configures (some recorder)
    ∷ schedules (every 5 2) (some go_line)
    ∷ schedules (at_state 3) (some go_line)
    ∷ polls 10 1
    ∷ polls 15 3
    ∷ cancels 2
    ∷ polls 40 3
    ∷ []

history_runs : (run (init, []) history).1 ≡ go_line ∷ go_line ∷ go_line ∷ []
unfolding booted
history_runs = refl

own_command_refused : (schedule booted (after 9) (some job_line)).1 ≡ recursive
unfolding booted schedule_once
own_command_refused = refl

schedule-Outcome_example :
    Outcome booted (some go_line) (job_of (every 5 2)) (schedule booted (every 5 2) (some go_line))
schedule-Outcome_example = schedule-Outcome booted (every 5 2) (some go_line)

run-IsValid_example : IsValid (run (init, []) history).0
run-IsValid_example = run-IsValid [] history

loaded-IsValid : IsValid loaded
unfolding loaded
loaded-IsValid =
    run-IsValid [] (configures (some recorder) ∷ schedules (every 5 2) (some go_line) ∷ [])

poll-deliver_example :
    (poll loaded [] 10 1).1
    ≡ (deliver recorder [] (due_commands 10 1 (state_entered loaded 1) loaded.jobs)).0
poll-deliver_example = (poll-deliver loaded recorder [] 10 1 (unfold loaded in refl)).1

poll-poll_example : (poll (poll loaded [] 10 1).0 (poll loaded [] 10 1).2 10 1).1 ≡ 0
unfolding loaded
poll-poll_example = (poll-poll loaded recorder [] 10 1 loaded-IsValid refl (omega arith)).0

polls-Limited_example :
    Limited 2
      (get_or (Budget.polls loaded [] ((10, 1) ∷ (15, 1) ∷ (99, 1) ∷ [])).0.jobs 0 empty_job)
unfolding loaded
polls-Limited_example =
    polls-Limited loaded [] ((10, 1) ∷ (15, 1) ∷ (99, 1) ∷ []) 0 2 (omega arith) (omega arith)
      (refl, ((λ e. omega arith), λ h. refl))

polls-Unlimited_example :
    Unlimited (get_or (Budget.polls crowded [] ((10, 1) ∷ (99, 1) ∷ [])).0.jobs 1 empty_job)
unfolding crowded
polls-Unlimited_example =
    polls-Unlimited crowded [] ((10, 1) ∷ (99, 1) ∷ []) 1 (omega arith) (refl, refl)

-- The next id has come round to that of a job that is still there.
abbrev wrapped : Scheduler (List (List ℕ))
wrapped = record loaded { next_id = 1 }

schedule_reuses_id_example :
    (get_or (schedule wrapped (after 9) (some go_line)).0.jobs 0 empty_job).active ≡ true
unfolding loaded schedule_once
schedule_reuses_id_example = (schedule_reuses_id wrapped (after 9) go_line 0 refl refl refl).3

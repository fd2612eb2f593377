-- ===== src/JobScheduler/Poll/Budget.antt =====
-- How often a job fires over any number of passes.
use bally_os.Base.{
  ℕ, zero, suc, ◌+◌, ◌^◌, ◌<◌, ◌≡◌, refl, ◌↔◌, Bool, true, List, [], ◌∷◌, arith, length, get_or,
  inl, inr, Option-cases,
}
use bally_os.JobScheduler.Slots.{Job, empty_job}
use bally_os.JobScheduler.{Scheduler, SubmitFn}
use bally_os.JobScheduler.Invariant.{length-poll_jobs}
use bally_os.JobScheduler.Poll.{
  Pass, poll_job, poll_jobs, state_entered, run_pass, poll, poll-polled, poll_unbound,
}

-- A limited job: what it has fired and what remains add up to its budget, and it is active exactly
-- while something remains.
abbrev pub Limited : ℕ → Job → Type 0
Limited budget j = (j.fired + j.remaining ≡ budget) × ((j.active ≡ true) ↔ (0 < j.remaining))

-- A job without a limit is active and stays without one.
abbrev pub Unlimited : Job → Type 0
Unlimited j = (j.remaining ≡ 0) × (j.active ≡ true)

module _ {W : Type 0} (submit : SubmitFn W) (now current : ℕ) (entered : Bool) where
  poll_job-Limited :
      (budget : ℕ)
      → budget < 2 ^ 32
      → (j : Job) (p : Pass W) → Limited budget j
      → Limited budget (poll_job submit now current entered j p).0
  unfolding poll_job
  poll_job-Limited budget b j p l = ground (arith, l.1)

  poll_job-Unlimited :
      (j : Job) (p : Pass W) → Unlimited j → Unlimited (poll_job submit now current entered j p).0
  unfolding poll_job
  poll_job-Unlimited j p u = ground arith

  poll_jobs_slot :
      (P : Job → Type 0)
      → ((j : Job) (p : Pass W) → P j → P (poll_job submit now current entered j p).0)
      → (js : List Job) (p : Pass W) (i : ℕ) → i < length js
      → P (get_or js i empty_job)
      → P (get_or (poll_jobs submit now current entered js p).0 i empty_job)
  unfolding poll_jobs
  poll_jobs_slot P keep [] p i h o = absurd (omega arith)
  poll_jobs_slot P keep (j ∷ js) p zero h o = keep j p o
  poll_jobs_slot P keep (j ∷ js) p (suc i) h o = poll_jobs_slot P keep js _ i (omega arith) o

module _ {W : Type 0} where
  -- Passes at the given times and states, one after the other.
  unfoldable pub polls : Scheduler W → W → List (ℕ × ℕ) → Scheduler W × W
  polls s w [] = (s, w)
  polls s w ((now, current) ∷ ts) = let (s', n, w') = poll s w now current in polls s' w' ts

  poll_slot :
      (P : Job → Type 0)
      → ((submit : SubmitFn W) (now current : ℕ) (entered : Bool) (j : Job) (p : Pass W)
          → P j
          → P (poll_job submit now current entered j p).0)
      → (s : Scheduler W) (w : W) (now current i : ℕ) → i < length s.jobs
      → P (get_or s.jobs i empty_job)
      → (length (poll s w now current).0.jobs ≡ length s.jobs)
        × P (get_or (poll s w now current).0.jobs i empty_job)
  unfolding run_pass
  poll_slot P keep s w now current i h o = elim (Option-cases s.submit) [
    | inl e ↦ rw (poll_unbound s w now current e) (refl, o)
    | inr (f, e) ↦ rw (poll-polled s f w now current e) (
      length-poll_jobs f now current (state_entered s current) s.jobs _,
      poll_jobs_slot f now current (state_entered s current) P
          (keep f now current (state_entered s current)) s.jobs _ i h o,
    )
  ]

  polls_slot :
      (P : Job → Type 0)
      → ((submit : SubmitFn W) (now current : ℕ) (entered : Bool) (j : Job) (p : Pass W)
          → P j
          → P (poll_job submit now current entered j p).0)
      → (s : Scheduler W) (w : W) (ts : List (ℕ × ℕ)) (i : ℕ) → i < length s.jobs
      → P (get_or s.jobs i empty_job)
      → P (get_or (polls s w ts).0.jobs i empty_job)
  unfolding polls
  polls_slot P keep s w [] i h o = o
  polls_slot P keep s w ((now, current) ∷ ts) i h o =
      let (len, o') = poll_slot P keep s w now current i h o in
      let (s', n, w') = poll s w now current in polls_slot P keep s' w' ts i (rw len h) o'

  -- A job with a repeat count keeps to it over any passes: its firings and what remains always add up
  -- to the budget it started with, and it is active exactly while something remains. (The budget is
  -- below 2^32, the width of the counters.)
  pub polls-Limited :
      (s : Scheduler W) (w : W) (ts : List (ℕ × ℕ)) (i budget : ℕ)
      → i < length s.jobs
      → budget < 2 ^ 32
      → Limited budget (get_or s.jobs i empty_job)
      → Limited budget (get_or (polls s w ts).0.jobs i empty_job)
  polls-Limited s w ts i budget h b l =
      polls_slot (Limited budget)
        (λ submit now current entered. poll_job-Limited submit now current entered budget b) s w ts
        i h l

  -- A job with repeat count 0 is never retired by any passes: it stays active and without a limit.
  pub polls-Unlimited :
      (s : Scheduler W) (w : W) (ts : List (ℕ × ℕ)) (i : ℕ)
      → i < length s.jobs
      → Unlimited (get_or s.jobs i empty_job)
      → Unlimited (get_or (polls s w ts).0.jobs i empty_job)
  polls-Unlimited s w ts i h u = polls_slot Unlimited poll_job-Unlimited s w ts i h u

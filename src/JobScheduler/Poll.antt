-- ===== src/JobScheduler/Poll.antt =====
-- lib/JobScheduler/JobScheduler.cpp, `poll`: one pass over the table. The iteration for one slot is
-- `poll_job`; the variables of the pass (statistics, count of this pass, the executor's world) are
-- a `Pass`.
pub mod Deliveries
pub mod Quiet
pub mod Budget
use bally_os.Base.{
  ℕ, suc, ◌≡◌, ap, ◌+◌, ◌-◌, ◌/◌, Bool, true, false, not, ◌&&◌, Option, none, some, List, [], ◌∷◌,
  leb, ◌==◌, if◌then◌else◌, u32, u64,
}
use bally_os.JobScheduler.Slots.{Job, Kind, interval, once, on_state_enter}
use bally_os.JobScheduler.{Scheduler, Stats, SubmitFn, no_state}

pub record Pass (W : Type 0) : Type 0 where
  pub stats : Stats
  pub fired_now : ℕ
  pub world : W

-- Whole missed occurrences are counted and dropped, and the schedule starts again from now. It is
-- reached with `next_ms` at most `now` only, so the truncated difference is the source's.
unfoldable pub missed : ℕ → Job → ℕ
missed now job =
    let lateness = now - job.next_ms in
    if leb job.interval_ms lateness then lateness / job.interval_ms else 0

unfoldable pub resync : ℕ → Job → Job
resync now job =
    if leb job.interval_ms (now - job.next_ms)
    then record job { next_ms = u64 (now + job.interval_ms) }
    else record job { next_ms = u64 (job.next_ms + job.interval_ms) }

-- `if (job.remaining != 0U)` and its body.
unfoldable pub spend : Job → Job
spend job =
    if job.remaining == 0
    then job
    else record job { remaining = job.remaining - 1; active = not (job.remaining - 1 == 0) }

module _ {W : Type 0} (submit : SubmitFn W) where
  unfoldable pub tally : Bool × W → Pass W → Pass W
  tally (true, w) p = record p {
    stats = record stats { fired = u32 (stats.fired + 1) };
    fired_now = suc p.fired_now;
    world = w;
  }
    where
      open p use {stats}
  tally (false, w) p = record p {
    stats = record stats { submit_failed = u32 (stats.submit_failed + 1) };
    world = w;
  }
    where
      open p use {stats}

  -- From the call of `submit_` to the end of the iteration.
  unfoldable pub fire : Job → Pass W → Job × Pass W
  unfolding spend tally
  fire job p =
      (spend (record job { fired = u32 (job.fired + 1) }), tally (submit p.world job.command) p)

  unfoldable pub note_missed : ℕ → Job → Pass W → Pass W
  unfolding missed
  note_missed now job p = record p {
    stats = record stats { skipped_late = u32 (stats.skipped_late + u32 (missed now job)) };
  }
    where
      open p use {stats}

  unfoldable pub poll_timed : ℕ → Job → Pass W → Job × Pass W
  unfolding fire note_missed resync
  poll_timed now job p =
      if job.next_ms == 0
      then (record job { next_ms = u64 (now + job.interval_ms) }, p)
      else if leb job.next_ms now
      then fire (resync now job) (note_missed now job p)
      else (job, p)

  unfoldable pub poll_kind : Kind → ℕ → ℕ → Bool → Job → Pass W → Job × Pass W
  unfolding poll_timed
  poll_kind on_state_enter now current entered job p =
      if entered && job.state == current then fire job p else (job, p)
  poll_kind interval now current entered job p = poll_timed now job p
  poll_kind once now current entered job p = poll_timed now job p

  unfoldable pub poll_job : ℕ → ℕ → Bool → Job → Pass W → Job × Pass W
  unfolding poll_kind
  poll_job now current entered job p =
      if job.active then poll_kind job.kind now current entered job p else (job, p)

  unfoldable pub poll_jobs : ℕ → ℕ → Bool → List Job → Pass W → List Job × Pass W
  poll_jobs now current entered [] p = ([], p)
  poll_jobs now current entered (j ∷ js) p =
      let (j', q) = poll_job now current entered j p in
      let (js', r) = poll_jobs now current entered js q in (j' ∷ js', r)

module _ {W : Type 0} where
  -- The edge: entered since the call before, and never on the first call.
  unfoldable pub state_entered : Scheduler W → ℕ → Bool
  state_entered s current = not (s.last_state == no_state) && not (current == s.last_state)

  unfoldable pub run_pass : Scheduler W → SubmitFn W → W → ℕ → ℕ → List Job × Pass W
  unfolding poll_jobs state_entered
  run_pass s submit w now current =
      poll_jobs submit now current (state_entered s current) s.jobs
        (record { stats = s.stats; fired_now = 0; world = w })

  -- The new scheduler, the number of commands handed over, and the executor's world.
  unfoldable pub poll : Scheduler W → W → ℕ → ℕ → Scheduler W × ℕ × W
  unfolding run_pass
  poll s w now current = elim s.submit [
    | none ↦ (s, 0, w)
    | some submit ↦
        let (jobs', q) = run_pass s submit w now current in
        (record s { jobs = jobs'; stats = q.stats; last_state = current }, q.fired_now, q.world)
  ]

  -- What `poll` is once an executor is bound.
  abbrev pub polled : Scheduler W → SubmitFn W → W → ℕ → ℕ → Scheduler W × ℕ × W
  polled s submit w now current =
      let (jobs', q) = run_pass s submit w now current in
      (record s { jobs = jobs'; stats = q.stats; last_state = current }, q.fired_now, q.world)

  pub poll-polled :
      (s : Scheduler W) (submit : SubmitFn W) (w : W) (now current : ℕ)
      → s.submit ≡ some submit
      → poll s w now current ≡ polled s submit w now current
  unfolding poll
  poll-polled s submit w now current e =
      ap (λ o. elim o [ none ↦ (s, 0, w) | some f ↦ polled s f w now current ]) e

  pub poll_unbound :
      (s : Scheduler W) (w : W) (now current : ℕ)
      → s.submit ≡ none
      → poll s w now current ≡ (s, 0, w)
  unfolding poll
  poll_unbound s w now current e =
      ap (λ o. elim o [ none ↦ (s, 0, w) | some f ↦ polled s f w now current ]) e

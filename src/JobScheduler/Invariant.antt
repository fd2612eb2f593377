-- ===== src/JobScheduler/Invariant.antt =====
-- What holds of lib/JobScheduler between any two calls of its interface.
use bally_os.Base.{
  ℕ, zero, suc, ◌≤◌, ◌<◌, ◌≡◌, refl, inl, inr, ◌≢◌, Bool, true, false, Option, none, some, List, [],
  ◌∷◌, arith, length, set, replicate, All, ◌==◌, length-set, ap, ◌∙◌, ◌&&◌, if◌then◌else◌,
}
use bally_os.JobScheduler.Slots.{Job, on_state_enter, empty_job, cancel_in, cancel_all_in}
use bally_os.JobScheduler.Admission.{
  IsCommand, Request, every, after, at_state, job_of, IsTimed, fresh, Outcome, schedule,
  schedule-Outcome, schedule-IsTimed,
}
use bally_os.JobScheduler.Poll.{Pass, poll_job, poll_jobs, poll}
use bally_os.JobScheduler.{
  Scheduler, SubmitFn, Error, ok, init, configure, reject, cancel, cancel_all, reset_stats,
  max_jobs,
}

-- An active job has a proper command, an id in 1..255 and, if it is timed, a period that is not 0.
abbrev pub JobOk : Job → Type 0
JobOk j =
    j.active ≡ true
    → IsCommand j.command
      × (j.kind ≢ on_state_enter → 0 < j.interval_ms)
      × (0 < j.id)
      × (j.id ≤ 255)

pub record IsValid {W : Type 0} (s : Scheduler W) : Type 0 where
  pub size : length s.jobs ≡ max_jobs
  pub jobs_ok : All JobOk s.jobs
  pub id_pos : 0 < s.next_id
  pub id_max : s.next_id ≤ 255

-- What a pass leaves alone in a job.
abbrev pub Keeps : Job → Job → Type 0
Keeps j j' =
    (j'.command ≡ j.command)
    × (j'.kind ≡ j.kind)
    × (j'.id ≡ j.id)
    × (j'.interval_ms ≡ j.interval_ms)
    × (j'.state ≡ j.state)
    × (j'.active ≡ true → j.active ≡ true)

module _ {W : Type 0} (submit : SubmitFn W) (now current : ℕ) (entered : Bool) where
  pub poll_job-Keeps : (j : Job) (p : Pass W) → Keeps j (poll_job submit now current entered j p).0
  unfolding poll_job
  poll_job-Keeps j p = ground arith

  Keeps-JobOk : (j j' : Job) → Keeps j j' → JobOk j → JobOk j'
  Keeps-JobOk j j' k o on = ground (arith, k.5 on, o (k.5 on))

  pub length-poll_jobs :
      (js : List Job) (p : Pass W)
      → length (poll_jobs submit now current entered js p).0 ≡ length js
  unfolding poll_jobs
  length-poll_jobs [] p = refl
  length-poll_jobs (j ∷ js) p = ap suc (length-poll_jobs js _)

  poll_jobs-All :
      (js : List Job) (p : Pass W)
      → All JobOk js
      → All JobOk (poll_jobs submit now current entered js p).0
  unfolding poll_jobs
  poll_jobs-All [] p h = tt
  poll_jobs-All (j ∷ js) p h = (
    Keeps-JobOk j (poll_job submit now current entered j p).0 (poll_job-Keeps j p) h.0,
    poll_jobs-All js _ h.1,
  )

All-set : (P : Job → Type 0) (js : List Job) (i : ℕ) (j : Job) → All P js → P j → All P (set js i j)
All-set P [] i j h o = tt
All-set P (x ∷ js) zero j h o = (o, h.1)
All-set P (x ∷ js) (suc i) j h o = (h.0, All-set P js i j h.1 o)

-- A table of good jobs as long as `js`.
abbrev Good : List Job → List Job → Type 0
Good js js' = All JobOk js' × (length js' ≡ length js)

cancel_in-Good : (js : List Job) (id : ℕ) → All JobOk js → Good js (cancel_in js id).0
unfolding cancel_in
cancel_in-Good [] id h = (tt, refl)
cancel_in-Good (j ∷ js) id h = go (j.active && j.id == id) (cancel_in-Good js id h.1)
  where
    go :
        (b : Bool)
        → Good js (cancel_in js id).0
        → Good
            (j ∷ js)
            (if◌then◌else◌ {A = List Job × Bool} b
              (record j { active = false } ∷ js, true)
              (j ∷ (cancel_in js id).0, (cancel_in js id).1)).0
    go true rest = (((λ on. cc), h.1), refl)
    go false (rest, len) = ((h.0, rest), ap suc len)

cancel_all_in-Good : (js : List Job) → All JobOk js → Good js (cancel_all_in js).0
unfolding cancel_all_in
cancel_all_in-Good [] h = (tt, refl)
cancel_all_in-Good (j ∷ js) h = go j.active (cancel_all_in-Good js h.1)
  where
    go :
        (b : Bool)
        → Good js (cancel_all_in js).0
        → Good
            (j ∷ js)
            (if◌then◌else◌ {A = List Job × ℕ} b
              (record j { active = false } ∷ (cancel_all_in js).0, suc (cancel_all_in js).1)
              (j ∷ (cancel_all_in js).0, (cancel_all_in js).1)).0
    go true (rest, len) = (((λ on. cc), rest), ap suc len)
    go false (rest, len) = ((h.0, rest), ap suc len)

job_of-JobOk :
    (r : Request) (id : ℕ) (text : List ℕ)
    → IsTimed r
    → IsCommand text
    → 0 < id
    → id ≤ 255
    → JobOk (job_of r (fresh id text))
job_of-JobOk (every n k) id text t c pos max on = (c, (λ _. ground arith), pos, max)
job_of-JobOk (after n) id text t c pos max on = (c, (λ _. ground arith), pos, max)
job_of-JobOk (at_state n) id text t c pos max on = (c, (λ ne. absurd (ne refl)), pos, max)

empty_jobs-All : (n : ℕ) → All JobOk (replicate n empty_job)
empty_jobs-All zero = tt
empty_jobs-All (suc n) = ((λ on. cc), empty_jobs-All n)

-- One call of the interface, at an executor `W`.
pub data Call (W : Type 0) : Type 0 where
  configures : Option (SubmitFn W) → Call W
  schedules : Request → Option (List ℕ) → Call W
  cancels : ℕ → Call W
  cancels_all : Call W
  polls : ℕ → ℕ → Call W
  resets_stats : Call W

module _ {W : Type 0} where
  unfoldable pub step : Scheduler W × W → Call W → Scheduler W × W
  step (s, w) (configures f) = (configure s f, w)
  step (s, w) (schedules r command) = ((schedule s r command).0, w)
  step (s, w) (cancels id) = ((cancel s id).0, w)
  step (s, w) cancels_all = ((cancel_all s).0, w)
  step (s, w) (polls now current) = let (s', n, w') = poll s w now current in (s', w')
  step (s, w) resets_stats = (reset_stats s, w)

  unfoldable pub run : Scheduler W × W → List (Call W) → Scheduler W × W
  unfolding step
  run sw [] = sw
  run sw (c ∷ cs) = run (step sw c) cs

  poll-IsValid :
      (s : Scheduler W) (w : W) (now current : ℕ) → IsValid s → IsValid (poll s w now current).0
  unfolding poll
  poll-IsValid s w now current v = go s.submit refl
    where
      go : (o : Option (SubmitFn W)) → s.submit ≡ o → IsValid (poll s w now current).0
      go none e = rw (e, poll) v
      go (some f) e =
          rw (e, poll)
            (record {
              size = length-poll_jobs f now current _ s.jobs _ ∙ v.size;
              jobs_ok = poll_jobs-All f now current _ s.jobs _ v.jobs_ok;
              id_pos = v.id_pos;
              id_max = v.id_max;
            })

  Outcome-IsValid :
      (s : Scheduler W) (r : Request) (command : Option (List ℕ))
      → (out : Scheduler W × Error × Option ℕ) → (out.1 ≡ ok → IsTimed r)
      → Outcome s command (job_of r) out
      → IsValid s
      → IsValid out.0
  unfolding reject
  Outcome-IsValid s r command out t (inl (text, i, done, _, c, h, free, e, _, _, n)) v = record {
    size = rw (e, length-set s.jobs i (job_of r (fresh s.next_id text))) v.size;
    jobs_ok = rw e (
        All-set JobOk s.jobs i _ v.jobs_ok
          (job_of-JobOk r s.next_id text (t done) c v.id_pos v.id_max));
    id_pos = ground arith;
    id_max = ground arith;
  }
  Outcome-IsValid s r command out t (inr (_, e, _)) v =
      rw e (record { size = v.size; jobs_ok = v.jobs_ok; id_pos = v.id_pos; id_max = v.id_max })

  -- Whatever call is made, a valid scheduler stays valid: eight slots, and in each active one a proper
  -- command that is not the scheduler's own, an id in 1..255 and a period that is not zero.
  pub step-IsValid : (s : Scheduler W) (w : W) (c : Call W) → IsValid s → IsValid (step (s, w) c).0
  unfolding step configure cancel cancel_all reset_stats
  step-IsValid s w (configures f) v = record {
    size = v.size;
    jobs_ok = v.jobs_ok;
    id_pos = v.id_pos;
    id_max = v.id_max;
  }
  step-IsValid s w (schedules r command) v =
      Outcome-IsValid s r command _ (λ h. (schedule-IsTimed s r command h).0)
        (schedule-Outcome s r command) v
  step-IsValid s w (cancels id) v =
      let (good, len) = cancel_in-Good s.jobs id v.jobs_ok in
      record { size = len ∙ v.size; jobs_ok = good; id_pos = v.id_pos; id_max = v.id_max }
  step-IsValid s w cancels_all v =
      let (good, len) = cancel_all_in-Good s.jobs v.jobs_ok in
      record { size = len ∙ v.size; jobs_ok = good; id_pos = v.id_pos; id_max = v.id_max }
  step-IsValid s w (polls now current) v = poll-IsValid s w now current v
  step-IsValid s w resets_stats v = record {
    size = v.size;
    jobs_ok = v.jobs_ok;
    id_pos = v.id_pos;
    id_max = v.id_max;
  }

  init-IsValid : IsValid (init {W = W})
  unfolding init
  init-IsValid = record {
    size = refl;
    jobs_ok = empty_jobs-All max_jobs;
    id_pos = omega arith;
    id_max = omega arith;
  }

  run_from-IsValid :
      (s : Scheduler W) (w : W) (cs : List (Call W)) → IsValid s → IsValid (run (s, w) cs).0
  unfolding run
  run_from-IsValid s w [] v = v
  run_from-IsValid s w (c ∷ cs) v =
      run_from-IsValid (step (s, w) c).0 (step (s, w) c).1 cs (step-IsValid s w c v)

  -- So it is valid after any sequence of calls from the start.
  pub run-IsValid : (w : W) (cs : List (Call W)) → IsValid (run (init, w) cs).0
  run-IsValid w cs = run_from-IsValid init w cs init-IsValid

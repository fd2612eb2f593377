-- ===== src/JobScheduler/Poll/Deliveries.antt =====
-- What one `poll` hands to the executor, against a reading of the table that knows no loop.
use bally_os.Base.{
  ℕ, suc, ◌+◌, ◌≡◌, refl, ap, ◌∙◌, inl, inr, Bool, true, false, not, ◌&&◌, some, List, [], ◌∷◌,
  arith, length, leb, ◌==◌, if◌then◌else◌, u32, Bool-cases,
}
use bally_os.JobScheduler.Slots.{Job, Kind, interval, once, on_state_enter}
use bally_os.JobScheduler.{Scheduler, SubmitFn}
use bally_os.JobScheduler.Poll.{
  Pass, poll_job, poll_jobs, state_entered, run_pass, poll, poll-polled,
}

abbrev pub due_kind : Kind → ℕ → ℕ → Bool → Job → Bool
due_kind on_state_enter now current entered j = entered && j.state == current
due_kind interval now current entered j = not (j.next_ms == 0) && leb j.next_ms now
due_kind once now current entered j = not (j.next_ms == 0) && leb j.next_ms now

-- A job is due when it is active and either its state has just been entered, or it is anchored and its
-- time has come.
abbrev pub is_due : ℕ → ℕ → Bool → Job → Bool
is_due now current entered j = j.active && due_kind j.kind now current entered j

-- The command lines of the jobs that are due, in slot order.
unfoldable pub due_commands : ℕ → ℕ → Bool → List Job → List (List ℕ)
due_commands now current entered [] = []
due_commands now current entered (j ∷ js) =
    let rest = due_commands now current entered js in
    if is_due now current entered j then j.command ∷ rest else rest

-- Command lines handed over one after the other: how many were accepted, and the world after them.
unfoldable pub deliver : {W : Type 0} → SubmitFn W → W → List (List ℕ) → ℕ × W
deliver submit w [] = (0, w)
deliver submit w (c ∷ cs) =
    let (accepted, w') = submit w c in
    let (n, w'') = deliver submit w' cs in (if accepted then suc n else n, w'')

module _ {W : Type 0} (submit : SubmitFn W) (now current : ℕ) (entered : Bool) where
  -- What a delivery of `cs` makes of a pass.
  abbrev Delivered : List (List ℕ) → Pass W → Pass W → Type 0
  Delivered cs p q =
      (q.world ≡ (deliver submit p.world cs).1)
      × (q.fired_now ≡ p.fired_now + (deliver submit p.world cs).0)
      × (u32 q.stats.fired ≡ u32 (p.stats.fired + (deliver submit p.world cs).0))
      × (u32 (q.stats.submit_failed + (deliver submit p.world cs).0)
          ≡ u32 (p.stats.submit_failed + length cs))
      × (q.stats.rejected ≡ p.stats.rejected)

  poll_job_idle :
      (j : Job) (p : Pass W)
      → is_due now current entered j ≡ false
      → (poll_job submit now current entered j p).1 ≡ p
  unfolding poll_job
  poll_job_idle j p h = ground arith

  poll_job_due :
      (j : Job) (p : Pass W)
      → is_due now current entered j ≡ true
      → Delivered (j.command ∷ []) p (poll_job submit now current entered j p).1
  unfolding poll_job deliver
  poll_job_due j p h = ground arith

  Delivered-cons :
      (c : List ℕ) (cs : List (List ℕ)) (p p' q : Pass W)
      → Delivered (c ∷ []) p p'
      → Delivered cs p' q
      → Delivered (c ∷ cs) p q
  unfolding deliver
  Delivered-cons c cs p p' q (w, n, f, b, r) (w', n', f', b', r') =
      let same = ap (λ x. (deliver submit x cs).0) w in
      (
        w' ∙ ap (λ x. (deliver submit x cs).1) w,
        ground (arith, same),
        ground (arith, same),
        ground (arith, same),
        r' ∙ r,
      )

  poll_jobs-Delivered :
      (js : List Job) (p : Pass W)
      → Delivered
          (due_commands now current entered js)
          p
          (poll_jobs submit now current entered js p).1
  unfolding poll_jobs due_commands deliver
  poll_jobs-Delivered [] p = (refl, omega arith, omega arith, omega arith, refl)
  poll_jobs-Delivered (j ∷ js) p = elim (Bool-cases (is_due now current entered j)) [
    | inl due ↦
        let p' = (poll_job submit now current entered j p).1 in
        rw due (
          Delivered-cons j.command (due_commands now current entered js) p p'
            (poll_jobs submit now current entered js p').1 (poll_job_due j p due)
            (poll_jobs-Delivered js p'))
    | inr idle ↦ rw (idle, poll_job_idle j p idle) (poll_jobs-Delivered js p)
  ]

module _ {W : Type 0} where
  -- One `poll` hands over exactly the commands that are due, in slot order and each once, whatever the
  -- executor answers. It returns how many were accepted; the count of fired commands grows by that
  -- number and the count of failures by the rest, modulo 2^32; the count of refused calls stays.
  pub poll-deliver :
      (s : Scheduler W) (submit : SubmitFn W) (w : W) (now current : ℕ)
      → s.submit ≡ some submit
      → let cs = due_commands now current (state_entered s current) s.jobs in
        let (s', n, w') = poll s w now current in
        (w' ≡ (deliver submit w cs).1)
        × (n ≡ (deliver submit w cs).0)
        × (u32 s'.stats.fired ≡ u32 (s.stats.fired + n))
        × (u32 (s'.stats.submit_failed + n) ≡ u32 (s.stats.submit_failed + length cs))
        × (s'.stats.rejected ≡ s.stats.rejected)
  unfolding run_pass
  poll-deliver s submit w now current e =
      let (world, count, fired, failed, rejected) =
        poll_jobs-Delivered submit now current (state_entered s current) s.jobs
          (record { stats = s.stats; fired_now = 0; world = w }) in
      rw (poll-polled s submit w now current e)
        (world, omega arith, omega arith, omega arith, rejected)

-- ===== src/JobScheduler/Ids.antt =====
-- The calls of lib/JobScheduler that name or show jobs: `cancel`, `cancel_all`, `list`,
-- `active_count`; and what an id identifies.
use bally_os.Base.{
  ℕ, suc, ◌≡◌, refl, ap, sym, ◌≢◌, ◌∙◌, inl, inr, true, Option, some, List, length, get_or, map,
  take, get_or-set_self, get_or-set_ne,
}
use bally_os.JobScheduler.Slots.{Job, empty_job, view}
use bally_os.JobScheduler.Table.{
  Cancels, cancel_in-Cancels, count_active-cancel_in, cancel_all_in-none_left, actives,
  views-actives, length-actives,
}
use bally_os.JobScheduler.Admission.{
  Request, every, after, at_state, job_of, fresh, Outcome, schedule, schedule-Outcome,
}
use bally_os.JobScheduler.{Scheduler, Error, ok, cancel, cancel_all, list, active_count}

job_of_keeps : (r : Request) (j : Job) → ((job_of r j).active ≡ j.active) × ((job_of r j).id ≡ j.id)
job_of_keeps (every n k) j = (refl, refl)
job_of_keeps (after n) j = (refl, refl)
job_of_keeps (at_state n) j = (refl, refl)

module _ {W : Type 0} where
  -- `cancel` returns `true` exactly when it deactivated one active job that carries the id, and then the
  -- count of active jobs is one less; it returns `false` only when no active job carries the id, and
  -- then the table is as before. Statistics, next id and last state stay.
  pub cancel-Cancels :
      (s : Scheduler W) (id : ℕ)
      → let (s', found) = cancel s id in
        Cancels s.jobs id (s'.jobs, found)
        × (found ≡ true → suc (active_count s') ≡ active_count s)
        × (s' ≡ record s { jobs = s'.jobs })
  unfolding cancel active_count
  cancel-Cancels s id = (cancel_in-Cancels s.jobs id, count_active-cancel_in s.jobs id, refl)

  -- `cancel_all` returns the number of active jobs, and leaves none.
  pub active_count-cancel_all :
      (s : Scheduler W) → ((cancel_all s).1 ≡ active_count s) × (active_count (cancel_all s).0 ≡ 0)
  unfolding cancel_all active_count
  active_count-cancel_all s = cancel_all_in-none_left s.jobs

  -- `list` shows the first active jobs in slot order, as many as the caller has room for, and with room
  -- for all it shows `active_count` of them.
  pub list-actives :
      (s : Scheduler W) (room : ℕ)
      → (list s room ≡ take room (map view (actives s.jobs)))
        × (length (actives s.jobs) ≡ active_count s)
  unfolding list active_count
  list-actives s room = (views-actives s.jobs room, length-actives s.jobs)

  -- An id does not identify a job: if an active job still carries the next id when a call is admitted,
  -- afterwards two different slots hold active jobs of that id.
  pub schedule_reuses_id :
      (s : Scheduler W) (r : Request) (text : List ℕ) (i : ℕ)
      → (get_or s.jobs i empty_job).active ≡ true
      → (get_or s.jobs i empty_job).id ≡ s.next_id
      → (schedule s r (some text)).1 ≡ ok
      → let jobs' = (schedule s r (some text)).0.jobs in
        (k : ℕ) × (k ≢ i)
        × ((get_or jobs' k empty_job).active ≡ true)
        × ((get_or jobs' i empty_job).active ≡ true)
        × ((get_or jobs' k empty_job).id ≡ (get_or jobs' i empty_job).id)
  schedule_reuses_id s r text i on same done =
      go (schedule s r (some text)) (schedule-Outcome s r (some text)) done
    where
      go :
          (out : Scheduler W × Error × Option ℕ)
          → Outcome s (some text) (job_of r) out
          → out.1 ≡ ok
          → (k : ℕ) × (k ≢ i)
            × ((get_or out.0.jobs k empty_job).active ≡ true)
            × ((get_or out.0.jobs i empty_job).active ≡ true)
            × ((get_or out.0.jobs k empty_job).id ≡ (get_or out.0.jobs i empty_job).id)
      go out (inl (t, k, _, _, _, h, free, e, _, _, _)) d =
          let ne : k ≢ i = λ q. cc (ap (λ x. (get_or s.jobs x empty_job).active) q) in
          let new : get_or out.0.jobs k empty_job ≡ job_of r (fresh s.next_id t) =
            rw e (get_or-set_self s.jobs k _ empty_job h) in
          let old : get_or out.0.jobs i empty_job ≡ get_or s.jobs i empty_job =
            rw e (get_or-set_ne s.jobs _ empty_job ne) in
          let (act, num) = job_of_keeps r (fresh s.next_id t) in
          (k, ne, rw new act, rw old on, rw (new, old) (num ∙ sym same))
      go out (inr (bad, _, _)) d = absurd (bad d)

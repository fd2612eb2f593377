-- ===== src/JobScheduler/Table.antt =====
-- The loops of lib/JobScheduler over the job table: what each of them finds, changes and counts.
use bally_os.Base.{
  ℕ, zero, suc, ◌≤◌, ◌<◌, ◌≡◌, refl, ap, inl, inr, ◌≢◌, Bool, true, false, Option, none, some, List,
  [], ◌∷◌, map, arith, length, get_or, set, modify, take, All, if◌then◌else◌, ◌&&◌, ◌==◌, ==_iff,
  Bool-cases,
}
use mathlib.Core.Option
use bally_os.JobScheduler.Slots.{
  Job, empty_job, find_free, cancel_in, cancel_all_in, count_active, view, views,
}

abbrev pub FindsFree : List Job → Option ℕ → Type 0
FindsFree js none = count_active js ≡ length js
FindsFree js (some i) = (i < length js) × ((get_or js i empty_job).active ≡ false)

pub count_active-le : (js : List Job) → count_active js ≤ length js
unfolding count_active
count_active-le [] = omega arith
count_active-le (j ∷ js) = ground (arith, count_active-le js)

-- The free slot that is found is free, and none is found only in a full table.
pub find_free-FindsFree : (js : List Job) → FindsFree js (find_free js)
unfolding find_free count_active
find_free-FindsFree [] = refl
find_free-FindsFree (j ∷ js) = split (find_free-FindsFree js) j.active refl
  where
    shift :
        j.active ≡ true → (o : Option ℕ) → FindsFree js o → FindsFree (j ∷ js) (Option.map suc o)
    shift e none h = ground arith
    shift e (some i) h = (omega arith, h.1)

    split :
        FindsFree js (find_free js)
        → (b : Bool) → j.active ≡ b
        → FindsFree (j ∷ js) (if b then Option.map suc (find_free js) else some 0)
    split found true e = shift e (find_free js) found
    split found false e = (omega arith, e)

pub modify-set {ℓ} :
    {A : Type ℓ} (xs : List A) (i : ℕ) (a : A) (f : A → A)
    → modify (set xs i a) i f ≡ set xs i (f a)
modify-set [] i a f = refl
modify-set (x ∷ xs) zero a f = refl
modify-set (x ∷ xs) (suc i) a f = ap (◌∷◌ x) (modify-set xs i a f)

-- Writing an active job into a free slot adds one to the count.
pub count_active-set :
    (js : List Job) (i : ℕ) (job : Job)
    → i < length js
    → (get_or js i empty_job).active ≡ false
    → job.active ≡ true
    → count_active (set js i job) ≡ suc (count_active js)
unfolding count_active
count_active-set [] i job h free on = absurd (omega arith)
count_active-set (j ∷ js) zero job h free on = ground arith
count_active-set (j ∷ js) (suc i) job h free on =
    ground (arith, count_active-set js i job (omega arith) free on)

abbrev pub deactivate : Job → Job
deactivate j = record j { active = false }

-- What one call of `cancel` does to the table.
abbrev pub Cancels : List Job → ℕ → List Job × Bool → Type 0
Cancels js id (js', true) =
    (i : ℕ) × (i < length js)
    × ((get_or js i empty_job).active ≡ true)
    × ((get_or js i empty_job).id ≡ id)
    × (js' ≡ modify js i deactivate)
Cancels js id (js', false) = (js' ≡ js) × All (λ j. j.active ≡ true → j.id ≢ id) js

Cancels-cons :
    (j : Job) (js : List Job) (id : ℕ) (r : List Job × Bool)
    → (j.active && j.id == id) ≡ false
    → Cancels js id r
    → Cancels (j ∷ js) id (j ∷ r.0, r.1)
Cancels-cons j js id (js', true) miss (i, lt, on, same, e) =
    (suc i, omega arith, on, same, ap (◌∷◌ j) e)
Cancels-cons j js id (js', false) miss (e, others) =
    (ap (◌∷◌ j) e, ((λ on same. ground (arith, ==_iff j.id id)), others))

-- `cancel` deactivates one active job of that id, and fails only when there is none.
pub cancel_in-Cancels : (js : List Job) (id : ℕ) → Cancels js id (cancel_in js id)
unfolding cancel_in
cancel_in-Cancels [] id = (refl, tt)
cancel_in-Cancels (j ∷ js) id = elim (Bool-cases (j.active && j.id == id)) [
  | inl hit ↦ rw hit (zero, omega arith, ground arith, ground arith, refl)
  | inr miss ↦ rw miss (Cancels-cons j js id (cancel_in js id) miss (cancel_in-Cancels js id))
]

-- The jobs that `list` may show, in slot order.
pub actives : List Job → List Job
actives [] = []
actives (j ∷ js) = let rest = actives js in if j.active then j ∷ rest else rest

pub views-actives : (js : List Job) (room : ℕ) → views js room ≡ take room (map view (actives js))
unfolding views actives
views-actives [] zero = refl
views-actives [] (suc room) = refl
views-actives (j ∷ js) zero = refl
views-actives (j ∷ js) (suc room) =
    ground (arith, views-actives js room, views-actives js (suc room))

pub length-actives : (js : List Job) → length (actives js) ≡ count_active js
unfolding actives count_active
length-actives [] = refl
length-actives (j ∷ js) = ground (arith, length-actives js)

pub count_active-cancel_in :
    (js : List Job) (id : ℕ)
    → (cancel_in js id).1 ≡ true
    → suc (count_active (cancel_in js id).0) ≡ count_active js
unfolding cancel_in count_active
count_active-cancel_in [] id h = cc
count_active-cancel_in (j ∷ js) id h = ground (arith, count_active-cancel_in js id)

pub cancel_all_in-none_left :
    (js : List Job)
    → ((cancel_all_in js).1 ≡ count_active js) × (count_active (cancel_all_in js).0 ≡ 0)
unfolding cancel_all_in count_active
cancel_all_in-none_left [] = (refl, refl)
cancel_all_in-none_left (j ∷ js) = ground (arith, cancel_all_in-none_left js)

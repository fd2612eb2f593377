-- ===== src/JobScheduler/Slots.antt =====
-- lib/JobScheduler: one job, and the loops over the job table.
use bally_os.Base.{
  ℕ, zero, suc, Bool, true, false, ◌&&◌, Option, none, some, List, [], ◌∷◌, ◌==◌, if◌then◌else◌,
}
use mathlib.Core.Option

pub data Kind : Type 0 where
  interval once on_state_enter : Kind

pub record Job : Type 0 where
  pub active : Bool
  pub kind : Kind
  pub id : ℕ
  pub state : ℕ
  pub interval_ms : ℕ
  pub next_ms : ℕ
  pub remaining : ℕ
  pub fired : ℕ
  pub command : List ℕ

-- `Job{}`.
abbrev pub empty_job : Job
empty_job = record {
  active = false;
  kind = interval;
  id = 0;
  state = 0;
  interval_ms = 0;
  next_ms = 0;
  remaining = 0;
  fired = 0;
  command = [];
}

pub record JobView : Type 0 where
  pub id : ℕ
  pub kind : Kind
  pub interval_ms : ℕ
  pub state : ℕ
  pub remaining : ℕ
  pub fired : ℕ
  pub command : List ℕ

unfoldable pub find_free : List Job → Option ℕ
find_free [] = none
find_free (j ∷ js) = if j.active then Option.map suc (find_free js) else some 0

unfoldable pub cancel_in : List Job → ℕ → List Job × Bool
cancel_in [] id = ([], false)
cancel_in (j ∷ js) id =
    let (js', found) = cancel_in js id in
    if j.active && j.id == id then (record j { active = false } ∷ js, true) else (j ∷ js', found)

unfoldable pub cancel_all_in : List Job → List Job × ℕ
cancel_all_in [] = ([], 0)
cancel_all_in (j ∷ js) =
    let (js', n) = cancel_all_in js in
    if j.active then (record j { active = false } ∷ js', suc n) else (j ∷ js', n)

unfoldable pub count_active : List Job → ℕ
count_active [] = 0
count_active (j ∷ js) = let n = count_active js in if j.active then suc n else n

unfoldable pub view : Job → JobView
view j = record {
  id = j.id;
  kind = j.kind;
  interval_ms = j.interval_ms;
  state = j.state;
  remaining = j.remaining;
  fired = j.fired;
  command = j.command;
}

-- The loop of `list`: at most `room` more views.
unfoldable pub views : List Job → ℕ → List JobView
unfolding view
views [] room = []
views (j ∷ js) zero = []
views (j ∷ js) (suc room) =
    let shown = views js room in
    let skipped = views js (suc room) in if j.active then view j ∷ shown else skipped

-- ===== src/Logger/Naming.antt =====
-- lib/Logger: the names that `make_log_filename` gives to new files.
use bally_os.Base.{
  ℕ, zero, suc, ◌+◌, ◌-◌, ◌^◌, ◌≤◌, ◌<◌, ◌≡◌, ◌≢◌, refl, ap, subst, ◌∙◌, Bool, true, false, not,
  ◌&&◌, none, some, List, arith, ltb, leb, if◌then◌else◌, length, u32, Bool-cases, inl, inr,
}
use bally_os.Logger.{Logger}
use bally_os.Logger.Files.{
  LogCard, LocalTime, log_name, log_filename_capacity, named, next_name, first_name, name_at,
  make_log_filename,
}

-- A name of a new file: it has the time and the counter, it fits, and no file of the card has it.
pub record IsNew {W : Type 0} (card : LogCard W) (w : W) (t : LocalTime) (name : List ℕ)
    (counter : ℕ) : Type 0 where
  pub dated : name ≡ log_name t counter
  pub fits : length name < log_filename_capacity
  pub absent : card.file_exists name w ≡ false

-- A counter whose name could be taken.
abbrev pub free_name : {W : Type 0} → LogCard W → W → LocalTime → ℕ → Bool
free_name card w t counter =
    ltb (length (log_name t counter)) log_filename_capacity
    && not (card.file_exists (log_name t counter) w)

module _ {W : Type 0} (card : LogCard W) (w : W) (t : LocalTime) where
  new_lem :
      (counter : ℕ)
      → free_name card w t counter ≡ true
      → IsNew card w t (log_name t counter) counter
  new_lem counter e = record { dated = refl; fits = ground arith; absent = ground arith }

  not_first :
      (counter k : ℕ)
      → k ≡ 0
      → free_name card w t (counter + 1) ≡ false
      → free_name card w t (counter + 1 + k) ≡ true
      → ⊥
  not_first counter k z e free =
      let same = ap (free_name card w t) {x = counter + 1 + k} {y = counter + 1} (omega arith) in
      cc (same, e, free)

  next_name-suc :
      (n counter : ℕ)
      → counter + 1 < 2 ^ 32
      → next_name card (suc n) t counter w ≡ (
          if free_name card w t (counter + 1)
          then some (log_name t (counter + 1), counter + 1)
          else next_name card n t (counter + 1) w)
  unfolding next_name
  next_name-suc n counter small =
      ap (λ c. if free_name card w t c then some (log_name t c, c) else next_name card n t c w)
        {x = u32 (counter + 1)} (omega arith)

  -- Enough rounds find a name, if one of the counters to come has one that is free.
  next_name-IsNew :
      (rounds counter k : ℕ)
      → k < rounds
      → counter + 1 + k < 2 ^ 32
      → free_name card w t (counter + 1 + k) ≡ true
      → (name : List ℕ) × (counter' : ℕ) × (next_name card rounds t counter w
          ≡ some (name, counter'))
        × IsNew card w t name counter'
  next_name-IsNew zero counter k lt small free = absurd (omega arith)
  next_name-IsNew (suc n) counter k lt small free =
      let step = next_name-suc n counter (omega arith) in
      elim (Bool-cases (free_name card w t (counter + 1))) [
        | inl e ↦ (log_name t (counter + 1), counter + 1, step ∙ rw e refl, new_lem (counter + 1) e)
        | inr e ↦
            let first : k ≢ 0 = λ z. not_first counter k z e free in
            let (name, counter', found, new) =
              next_name-IsNew n (counter + 1) (k - 1) (omega arith) (omega arith)
                (subst (λ c. free_name card w t c ≡ true) (omega arith) free) in
            (name, counter', step ∙ rw e found, new)
      ]

  make_log_filename-first :
      (rounds : ℕ) (l : Logger)
      → card.local_time w ≡ some t
      → length (log_name t (l.log_counter + 1)) < log_filename_capacity
      → l.log_counter + 1 < 2 ^ 32
      → make_log_filename card rounds l w ≡ (
          let c = l.log_counter + 1 in
          if card.file_exists (log_name t c) w
          then named card (record l { log_counter = c }) (next_name card rounds t c w)
          else some (some (log_name t c), record l { log_counter = c }))
  unfolding make_log_filename first_name
  make_log_filename-first rounds l time fits small =
      let c = l.log_counter + 1 in
      ap (λ z. name_at card rounds l z w) time
      ∙ ap (λ n. first_name card rounds l t n w) {x = u32 c} (omega arith)
      ∙ ap
          (λ b.
            let l' = record l { log_counter = c } in
            if b
            then some (none, l')
            else if card.file_exists (log_name t c) w
            then named card l' (next_name card rounds t c w)
            else some (some (log_name t c), l'))
          {x = leb log_filename_capacity (length (log_name t c))} {y = false} (ground arith)

  -- When the first name fits and one of the names of the next `rounds + 1` counters could be taken, `make_log_filename`
  -- ends with a name that has the time and the new value of the counter, that fits its buffer, and that no file
  -- of the card has.
  pub make_log_filename-IsNew :
      (rounds : ℕ) (l : Logger) (k : ℕ)
      → card.local_time w ≡ some t
      → length (log_name t (l.log_counter + 1)) < log_filename_capacity
      → k ≤ rounds
      → l.log_counter + 1 + k < 2 ^ 32
      → free_name card w t (l.log_counter + 1 + k) ≡ true
      → (name : List ℕ) × (counter : ℕ) × (make_log_filename card rounds l w
          ≡ some (some name, record l { log_counter = counter }))
        × IsNew card w t name counter
  make_log_filename-IsNew rounds l k time fits le small free =
      let c = l.log_counter + 1 in
      let step = make_log_filename-first rounds l time fits (omega arith) in
      elim (Bool-cases (card.file_exists (log_name t c) w)) [
        | inl taken ↦
            let first : k ≢ 0 = λ z. not_first l.log_counter k z (ground (arith, taken)) free in
            let (name, counter, found, new) =
              next_name-IsNew rounds c (k - 1) (omega arith) (omega arith)
                (subst (λ n. free_name card w t n ≡ true) (omega arith) free) in
            (
              name,
              counter,
              step ∙ rw taken (ap (named card (record l { log_counter = c })) found),
              new,
            )
        | inr absent ↦ (
          log_name t c,
          c,
          step ∙ rw absent refl,
          record { dated = refl; fits = fits; absent = absent },
        )
      ]

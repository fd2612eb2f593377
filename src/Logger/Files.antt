-- ===== src/Logger/Files.antt =====
-- lib/Logger: the files of the card that the log goes to, and the clock that names them. The card
-- and the C library's clock are the record `LogCard` over a world `W`; a name is a C string without its closing 0.
use bally_os.Base.{
  ℕ, zero, suc, ◌+◌, ◌-◌, Bool, true, false, not, ◌&&◌, ◌||◌, Option, none, some, List, [], ◌∷◌,
  ◌++◌, codes, ltb, leb, ◌==◌, if◌then◌else◌, length, take, drop, replicate, u16, u32,
}
use bally_os.Btp.{Btp}
use bally_os.RobotSettings.Numbers.{print_unsigned}
use bally_os.RobotSettings.Entries.{same_text}
use bally_os.Logger.{Logger, Port}
use bally_os.Logger.Storing.{flush_logs_to}

-- A local time; the month counts from 1.
pub record LocalTime : Type 0 where
  pub year : ℕ
  pub month : ℕ
  pub day : ℕ
  pub hour : ℕ
  pub minute : ℕ
  pub second : ℕ

pub record LogCard (W : Type 0) : Type 0 where
  pub is_mounted : W → Bool
  pub file_exists : List ℕ → W → Bool
  pub get_file_count : W → ℕ
  pub get_file_info : ℕ → W → Option (List ℕ)
  pub open_write_stream : List ℕ → Bool → W → Bool × W
  pub write_stream : List ℕ → W → Bool × W
  pub close_stream : W → Bool × W
  pub local_time : W → Option LocalTime
  -- `setenv`, `tzset` and `mktime`; `localtime_r`; `settimeofday`.
  pub set_zone : List ℕ → W → W
  pub mktime : LocalTime → W → Option ℕ
  pub localtime : ℕ → W → LocalTime
  pub settimeofday : ℕ → W → Bool × W

-- `kLogFilenameCapacity`.
abbrev pub log_filename_capacity : ℕ
log_filename_capacity = 128

-- "%0nd"
abbrev padded : ℕ → ℕ → List ℕ
padded width n = let digits = print_unsigned n in replicate (width - length digits) b'0' ++ digits

unfoldable pub log_name : LocalTime → ℕ → List ℕ
log_name t counter =
    codes "log_"
    ++ padded 4 t.year
    ++ codes "-"
    ++ padded 2 t.month
    ++ codes "-"
    ++ padded 2 t.day
    ++ codes "_"
    ++ padded 2 t.hour
    ++ codes "-"
    ++ padded 2 t.minute
    ++ codes "-"
    ++ padded 2 t.second
    ++ codes "_"
    ++ padded 6 counter
    ++ codes ".blog"

-- `strcmp(a, b) > 0`.
unfoldable pub comes_after : List ℕ → List ℕ → Bool
comes_after [] others = false
comes_after (c ∷ rest) [] = true
comes_after (c ∷ rest) (d ∷ others) = ltb d c || (c == d && comes_after rest others)

unfoldable pub is_log_name : List ℕ → Bool
unfolding same_text
is_log_name name =
    leb 10 (length name)
    && same_text (take 4 name) (codes "log_")
    && same_text (drop (length name - 5) name) (codes ".blog")

module _ {W : Type 0} (card : LogCard W) where
  -- The loop of `make_log_filename` after the first name, which ends with a name that is not on the card and
  -- the counter in it; `none` if it does not end within the rounds.
  unfoldable pub next_name : ℕ → LocalTime → ℕ → W → Option (List ℕ × ℕ)
  next_name zero t counter w = none
  next_name (suc n) t counter w =
      let candidate = u32 (counter + 1) in
      let name = log_name t candidate in
      let rest = next_name n t candidate w in
      if ltb (length name) log_filename_capacity && not (card.file_exists name w)
      then some (name, candidate)
      else rest

  -- What the name found does to the logger.
  abbrev pub named : Logger → Option (List ℕ × ℕ) → Option (Option (List ℕ) × Logger)
  named l none = none
  named l (some (name, counter)) = some (some name, record l { log_counter = counter })

  -- With the first candidate counted.
  unfoldable pub first_name : ℕ → Logger → LocalTime → ℕ → W → Option (Option (List ℕ) × Logger)
  first_name rounds l t candidate w =
      let name = log_name t candidate in
      let l' = record l { log_counter = candidate } in
      if leb log_filename_capacity (length name)
      then some (none, l')
      else if card.file_exists name w
      then named l' (next_name rounds t candidate w)
      else some (some name, l')

  abbrev pub name_at : ℕ → Logger → Option LocalTime → W → Option (Option (List ℕ) × Logger)
  name_at rounds l none w = some (none, l)
  name_at rounds l (some t) w = first_name rounds l t (u32 (l.log_counter + 1)) w

  -- Inside the option: a name, if one can be made.
  unfoldable pub make_log_filename : ℕ → Logger → W → Option (Option (List ℕ) × Logger)
  make_log_filename rounds l w = name_at rounds l (card.local_time w) w

  -- The loop of `find_latest_log_file`, from `index` on, for `left` files; a name that does not fit ends it.
  unfoldable pub latest_from : ℕ → ℕ → List ℕ → W → Option (List ℕ)
  latest_from index zero latest w = some latest
  latest_from index (suc left) latest w = elim (card.get_file_info index w) [
    | none ↦ latest_from (u16 (index + 1)) left latest w
    | some name ↦ elim (is_log_name name && (length latest == 0 || comes_after name latest)) [
      | false ↦ latest_from (u16 (index + 1)) left latest w
      | true ↦ elim (leb log_filename_capacity (length name)) [
        | true ↦ none
        | false ↦ latest_from (u16 (index + 1)) left name w
      ]
    ]
  ]

  unfoldable pub find_latest_log_file : W → Option (List ℕ)
  find_latest_log_file w = elim (latest_from 0 (card.get_file_count w) [] w) [
    | none ↦ none
    | some latest ↦ if length latest == 0 then none else some latest
  ]

  -- The file that is written: the last one or the latest on the card, or a new one.
  unfoldable pub choose_file : ℕ → Logger → Bool → W → Option (Option (List ℕ) × Logger)
  choose_file rounds l append w =
      if not append
      then make_log_filename rounds l w
      else if not (length l.last_log_file == 0) && card.file_exists l.last_log_file w
      then some (some l.last_log_file, l)
      else some (find_latest_log_file w, l)

  -- With the file open: the records go to it, and its name is kept.
  unfoldable pub write_log_file : Btp → Port W → Logger → Bool → List ℕ → W → Bool × Logger × W
  write_log_file btp p l append filename w =
      let (stored, l1, w1) = flush_logs_to btp p l (some card.write_stream) w in
      let (closed, w2) = card.close_stream w1 in
      (
        stored && closed,
        if not append || length l1.last_log_file == 0
            then record l1 { last_log_file = filename }
            else l1,
        w2,
      )

  -- `none` if no name is found within the rounds.
  unfoldable pub flush_to_sd : Btp → Port W → ℕ → Logger → Bool → W → Option (Bool × Logger × W)
  flush_to_sd btp p rounds l append w =
      if not (card.is_mounted w) then some (false, l, w) else elim (choose_file rounds l append w) [
        | none ↦ none
        | some (none, l1) ↦ some (false, l1, w)
        | some (some filename, l1) ↦
            let (opened, w1) = card.open_write_stream filename append w in
            if opened
            then some (write_log_file btp p l1 append filename w1)
            else some (false, l1, w1)
      ]

  abbrev same_time : LocalTime → LocalTime → Bool
  same_time a b =
      a.year == b.year
      && a.month == b.month
      && a.day == b.day
      && a.hour == b.hour
      && a.minute == b.minute
      && a.second == b.second

  unfoldable pub set_datetime : LocalTime → List ℕ → W → Bool × W
  set_datetime t posix_tz w =
      let w1 = card.set_zone posix_tz w in
      if ltb t.year 2020
        || (ltb t.month 1 || ltb 12 t.month)
        || (ltb t.day 1 || ltb 31 t.day)
        || (ltb 23 t.hour || ltb 59 t.minute || ltb 59 t.second)
      then (false, w)
      else elim (card.mktime t w1) [
        | none ↦ (false, w1)
        | some timestamp ↦
            if same_time (card.localtime timestamp w1) t
            then card.settimeofday timestamp w1
            else (false, w1)
      ]

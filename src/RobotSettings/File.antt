-- ===== src/RobotSettings/File.antt =====
-- lib/RobotSettings: settings.conf, written and read.
use bally_os.Base.{
  ℕ, ◌+◌, ◌-◌, Bool, true, false, ◌||◌, Option, none, some, List, [], ◌∷◌, ◌++◌, take, ◌==◌,
  if◌then◌else◌, u16, u32, codes,
}
use bally_os.RobotSettings.Numbers.{print_unsigned}
use bally_os.RobotSettings.Table.{SettingEntry, SettingsData, default_settings, table}
use bally_os.RobotSettings.Entries.{Platform, same_text, format_entry, parse_into, find, or_empty}

-- `ROBOT_SETTINGS_FILE_MAX_BYTES`
abbrev pub max_file_bytes : ℕ
max_file_bytes = 8192

-- "[module]\n", after an empty line but at the start of the file
unfoldable pub header_text : Bool → List ℕ → List ℕ
header_text first m = (if first then [] else 10 ∷ []) ++ b'[' ∷ m ++ b']' ∷ 10 ∷ []

-- "key=value\n"
unfoldable pub pair_text : Platform → SettingsData → SettingEntry → List ℕ
pair_text p d e = e.key ++ b'=' ∷ or_empty (format_entry p d e) ++ 10 ∷ []

-- The loop of `save` from a row on; `first` is `i == 0`.
unfoldable pub save_rows : Platform → SettingsData → Bool → List ℕ → List SettingEntry → List ℕ
save_rows p d first current [] = []
save_rows p d first current (e ∷ rows) =
    (if same_text current e.module_name then [] else header_text first e.module_name)
    ++ (pair_text p d e ++ save_rows p d false e.module_name rows)

unfoldable pub save_text : Platform → SettingsData → List ℕ
save_text p d = save_rows p d true [] table

unfoldable pub emit : List ℕ → List (List ℕ) → List (List ℕ)
emit [] lines = lines
emit (c ∷ line) lines = (c ∷ line) ∷ lines

-- `strtok_r` with "\r\n": the runs of other octets up to the first 0; `line` is the run so far.
unfoldable pub split_lines : List ℕ → List ℕ → List (List ℕ)
split_lines line [] = emit line []
split_lines line (c ∷ rest) = elim (c == 0) [
  | true ↦ emit line []
  | false ↦ elim (c == 10 || c == 13) [
    | true ↦ emit line (split_lines [] rest)
    | false ↦ split_lines (line ++ c ∷ []) rest
  ]
]

unfoldable pub skip_blanks : List ℕ → List ℕ
skip_blanks [] = []
skip_blanks (c ∷ rest) =
    let more = skip_blanks rest in if c == b' ' || c == 9 then more else c ∷ rest

-- `strchr`: what stands before the first `mark` and what after.
unfoldable pub split_at : ℕ → List ℕ → Option (List ℕ × List ℕ)
split_at mark [] = none
split_at mark (c ∷ rest) =
    let more = split_at mark rest in
    if c == mark
    then some ([], rest)
    else elim more [ none ↦ none | some (before, after) ↦ some (c ∷ before, after) ]

-- The local variables of `parse_file`'s loop.
pub record Parsing : Type 0 where
  pub current_module : List ℕ
  pub settings : SettingsData
  pub skipped_lines : ℕ

unfoldable pub skip_line : Parsing → Parsing
skip_line s = record s { skipped_lines = u16 (s.skipped_lines + 1) }

-- A line that starts with '[': the name, if there is one, at most 31 octets of it.
unfoldable pub parse_header : Parsing → Option (List ℕ × List ℕ) → Parsing
parse_header s none = s
parse_header s (some ([], after)) = s
parse_header s (some (c ∷ name, after)) = record s { current_module = take 31 (c ∷ name) }

unfoldable pub count_failure : Parsing → SettingsData × Bool → Parsing
count_failure s (d, true) = record s { settings = d }
count_failure s (d, false) = skip_line (record s { settings = d })

unfoldable pub parse_found : Platform → Parsing → List ℕ → Option SettingEntry → Parsing
parse_found p s value none = skip_line s
parse_found p s value (some e) = count_failure s (parse_into p s.settings e (some value))

-- A line "key=value", or one without '='.
unfoldable pub parse_pair : Platform → Parsing → Option (List ℕ × List ℕ) → Parsing
parse_pair p s none = skip_line s
parse_pair p s (some (key, value)) = parse_found p s value (find (some s.current_module) (some key))

unfoldable pub parse_trimmed : Platform → Parsing → List ℕ → Parsing
parse_trimmed p s [] = s
parse_trimmed p s (c ∷ rest) =
    if c == b'['
    then parse_header s (split_at b']' rest)
    else if c == b'#' || c == b';'
    then s
    else parse_pair p s (split_at b'=' (c ∷ rest))

unfoldable pub parse_line : Platform → Parsing → List ℕ → Parsing
parse_line p s line = parse_trimmed p s (skip_blanks line)

unfoldable pub parse_lines : Platform → Parsing → List (List ℕ) → Parsing
parse_lines p s [] = s
parse_lines p s (line ∷ lines) = parse_lines p (parse_line p s line) lines

-- The card as this code sees it: `file` is what a read of settings.conf gives, if it succeeds;
-- `accepts` is whether the next write does, and `left_over` what a failed one leaves.
pub record Card : Type 0 where
  pub mounted : Bool
  pub file : Option (List ℕ)
  pub accepts : Bool
  pub left_over : Option (List ℕ)

unfoldable pub write_file : Card → List ℕ → Card × Bool
write_file card bytes =
    if card.accepts
    then (record card { file = some bytes }, true)
    else (record card { file = card.left_over }, false)

-- What the octets read make of `d`, and how many lines were ignored.
unfoldable pub parse_bytes : Platform → SettingsData → ℕ → List ℕ → Parsing
parse_bytes p d skipped bytes =
    parse_lines p (record { current_module = []; settings = d; skipped_lines = skipped })
      (split_lines [] (take (max_file_bytes - 1) bytes))

unfoldable pub parse_read :
    Platform → SettingsData → ℕ → Option (List ℕ) → Option (SettingsData × ℕ)
parse_read p d skipped none = none
parse_read p d skipped (some bytes) =
    let s = parse_bytes p d skipped bytes in some (s.settings, s.skipped_lines)

-- The settings that the file gives over `d`, and how many lines were ignored. The lines
-- are always counted; a caller that passes no counter does not look at them.
unfoldable pub parse_file : Platform → Card → SettingsData → ℕ → Option (SettingsData × ℕ)
parse_file p card d skipped = if card.mounted then parse_read p d skipped card.file else none

-- `data_` and `save_revision_`
pub record Stored : Type 0 where
  pub settings : SettingsData
  pub save_revision : ℕ

unfoldable pub count_save : Stored → Card × Bool → Stored × Card × Bool
count_save s (card, true) = (record s { save_revision = u32 (s.save_revision + 1) }, card, true)
count_save s (card, false) = (s, card, false)

unfoldable pub save : Platform → Stored → Card → Stored × Card × Bool
save p s card =
    if card.mounted
    then count_save s (write_file card (save_text p s.settings))
    else (s, card, false)

unfoldable pub from_file :
    Platform → Stored → Card → Option (SettingsData × ℕ) → Stored × Card × Bool × ℕ
from_file p s card none = let (t, after, done) = save p s card in (t, after, done, 0)
from_file p s card (some (d, skipped)) = (record s { settings = d }, card, true, skipped)

-- The last number is the count of ignored lines.
unfoldable pub load : Platform → Stored → Card → Stored × Card × Bool × ℕ
load p s card =
    if card.mounted
    then from_file p s card (parse_file p card s.settings 0)
    else (s, card, false, 0)

-- The decimal number of `std::to_string`, and the lines of `diff`.
unfoldable pub diff_line : SettingEntry → List ℕ → List ℕ → List ℕ
diff_line e memory_value file_value =
    e.module_name
    ++ b'.' ∷ e.key
    ++ codes " memory="
    ++ memory_value
    ++ codes " file="
    ++ file_value
    ++ 10 ∷ []

-- The line of a row that differs, nothing of one that does not.
unfoldable pub compare_row : SettingEntry → Option (List ℕ) → Option (List ℕ) → Option (List ℕ)
compare_row e none b = none
compare_row e (some a) none = none
compare_row e (some a) (some b) = if same_text a b then none else some (diff_line e a b)

-- The text of the rows that differ, and their number.
unfoldable pub diff_rows : Platform → SettingsData → SettingsData → List SettingEntry → List ℕ × ℕ
diff_rows p memory on_card [] = ([], 0)
diff_rows p memory on_card (e ∷ rows) =
    joined (compare_row e (format_entry p memory e) (format_entry p on_card e))
      (diff_rows p memory on_card rows)
  where
    joined : Option (List ℕ) → List ℕ × ℕ → List ℕ × ℕ
    joined none rest = rest
    joined (some line) (lines, n) = (line ++ lines, n + 1)

unfoldable pub diff_text : Platform → SettingsData → Option (SettingsData × ℕ) → Option (List ℕ)
diff_text p d none = none
diff_text p d (some (on_card, skipped)) =
    let (lines, n) = diff_rows p d on_card table in
    some (lines ++ codes "differences=" ++ print_unsigned n)

unfoldable pub diff : Platform → SettingsData → Card → Option (List ℕ)
diff p d card = diff_text p d (parse_file p card default_settings 0)

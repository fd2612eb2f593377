-- ===== src/RobotSettings/RoundTrip.antt =====
-- lib/RobotSettings: a saved file read back, over any settings.
use bally_os.Base.{
  ℕ, ◌+◌, ◌<◌, ◌≡◌, refl, ap, sym, ◌∙◌, subst, Bool, true, false, some, List, [], ◌∷◌, ◌++◌, length,
  get_or, set, arith, u16, if◌then◌else◌, inl, inr, Bool-cases, All,
}
use bally_os.RobotSettings.Table.{SettingEntry, Value, number, SettingsData, table}
use bally_os.RobotSettings.Texts.{same_text-eq}
use bally_os.RobotSettings.Entries.{
  Platform, same_text, format_entry, parse_value, parse_into, store, find, find_in, or_empty,
}
use bally_os.RobotSettings.File.{
  Parsing, skip_line, count_failure, parse_found, parse_lines, split_lines, emit, pair_text,
  header_text, save_rows,
}
use bally_os.RobotSettings.Lines.{
  InLine, name_like, key_like, parse_line-header, parse_line-pair, split_lines-header,
  split_lines-pair,
}
use bally_os.RobotSettings.Reading.{ReadsBack, is_empty, Shown, value-Shown}

abbrev pub field : SettingsData → SettingEntry → Value
field d e = get_or d e.offset (number 0)

-- A row that `find` gives for its own names, and whose names make lines.
abbrev pub RowOk : SettingEntry → Type 0
RowOk e =
    (find (some e.module_name) (some e.key) ≡ some e)
    × (name_like e.module_name ≡ true)
    × (key_like e.key ≡ true)

-- The fields that the rows copy out of the saved settings: all but the empty texts.
abbrev pub absorb : SettingsData → SettingsData → List SettingEntry → SettingsData
absorb saved d [] = d
absorb saved d (e ∷ rows) =
    absorb saved (if is_empty (field saved e) then d else set d e.offset (field saved e)) rows

-- The lines with an empty text, counted from `k`.
abbrev pub count_empty : SettingsData → ℕ → List SettingEntry → ℕ
count_empty saved k [] = k
count_empty saved k (e ∷ rows) =
    count_empty saved (if is_empty (field saved e) then u16 (k + 1) else k) rows

abbrev pub reading : List ℕ → SettingsData → ℕ → Parsing
reading m d k = record { current_module = m; settings = d; skipped_lines = k }

abbrev pub result : Parsing → SettingsData × ℕ
result s = (s.settings, s.skipped_lines)

or_empty-some : (s : List ℕ) → or_empty (some s) ≡ s
unfolding or_empty
or_empty-some s = refl

module _ (p : Platform) where
  nothing :
      (current : List ℕ) (d : SettingsData) (k : ℕ)
      → result (parse_lines p (reading current d k) (split_lines [] [])) ≡ (d, k)
  unfolding parse_lines split_lines emit
  nothing current d k = refl

  pub parse_into-read :
      (d : SettingsData) (e : SettingEntry) (s : List ℕ) (v : Value)
      → 0 < length s
      → parse_value p e.type e.size s ≡ some v
      → parse_into p d e (some s) ≡ (set d e.offset v, true)
  unfolding parse_into store
  parse_into-read d e [] v pos read = absurd (omega arith)
  parse_into-read d e (c ∷ s) v pos read = rw read refl

  not_set :
      (m : List ℕ) (d : SettingsData) (k : ℕ) (e : SettingEntry)
      → count_failure (reading m d k) (parse_into p d e (some [])) ≡ reading m d (u16 (k + 1))
  unfolding count_failure skip_line parse_into
  not_set m d k e = refl

  -- The line of one setting: the field is set, or the line is counted.
  parse_found-Shown :
      (m : List ℕ) (d : SettingsData) (k : ℕ) (e : SettingEntry) (v : Value) (s : List ℕ)
      → Shown p e.type e.size v s
      → parse_found p (reading m d k) s (some e)
        ≡ (if is_empty v then reading m d (u16 (k + 1)) else reading m (set d e.offset v) k)
  unfolding parse_found count_failure skip_line
  parse_found-Shown m d k e v s (shown, plain, read) = go (is_empty v) read
    where
      go :
          (b : Bool)
          → (if b then s ≡ [] else ((0 < length s) × (parse_value p e.type e.size s ≡ some v)))
          → count_failure (reading m d k) (parse_into p d e (some s))
            ≡ (if b then reading m d (u16 (k + 1)) else reading m (set d e.offset v) k)
      go true empty =
          ap (λ t. count_failure (reading m d k) (parse_into p d e (some t))) empty
          ∙ not_set m d k e
      go false (pos, is) = ap (count_failure (reading m d k)) (parse_into-read d e s v pos is)

  module _ (saved : SettingsData) where
    -- The header, where there is one, sets the module.
    parse_lines-header :
        (current m rest : List ℕ) (d : SettingsData) (k : ℕ) (first : Bool)
        → name_like m ≡ true
        → parse_lines p
            (reading current d k)
            (split_lines [] ((if same_text current m then [] else header_text first m) ++ rest))
          ≡ parse_lines p (reading m d k) (split_lines [] rest)
    unfolding parse_lines
    parse_lines-header current m rest d k first named = elim (Bool-cases (same_text current m)) [
      | inl same ↦ rw same (
          ap (λ c. parse_lines p (reading c d k) (split_lines [] rest))
            (same_text-eq current m same))
      | inr other ↦ rw other (
          ap (parse_lines p (reading current d k)) (split_lines-header first m rest named)
          ∙ ap (λ s. parse_lines p s (split_lines [] rest))
              (parse_line-header p (reading current d k) m named))
    ]

    parse_lines-pair :
        (e : SettingEntry) (rest : List ℕ) (d : SettingsData) (k : ℕ)
        → RowOk e
        → ReadsBack p e.type e.size (field saved e)
        → parse_lines p (reading e.module_name d k) (split_lines [] (pair_text p saved e ++ rest))
          ≡ parse_lines p
              (if is_empty (field saved e)
                then reading e.module_name d (u16 (k + 1))
                else reading e.module_name (set d e.offset (field saved e)) k)
              (split_lines [] rest)
    unfolding parse_lines format_entry
    parse_lines-pair e rest d k (found, named, keyed) reads =
        let (s, shown) = value-Shown p e.type e.size (field saved e) reads in
        let text_eq : or_empty (format_entry p saved e) ≡ s =
          ap or_empty shown.0 ∙ or_empty-some s in
        ap (parse_lines p (reading e.module_name d k))
          (split_lines-pair p saved e rest keyed (subst (All InLine) (sym text_eq) shown.1))
        ∙ ap (λ t. parse_lines p t (split_lines [] rest))
            (parse_line-pair p (reading e.module_name d k) e.key (or_empty (format_entry p saved e))
                keyed
              ∙ ap (parse_found p (reading e.module_name d k) (or_empty (format_entry p saved e)))
                  found
              ∙ ap (λ t. parse_found p (reading e.module_name d k) t (some e)) text_eq
              ∙ parse_found-Shown e.module_name d k e (field saved e) s shown)

    pub parse_lines-save_rows :
        (rows : List SettingEntry) (current : List ℕ) (d : SettingsData) (k : ℕ) (first : Bool)
        → All RowOk rows
        → All (λ e. ReadsBack p e.type e.size (field saved e)) rows
        → result (
            parse_lines p
              (reading current d k)
              (split_lines [] (save_rows p saved first current rows)))
          ≡ (absorb saved d rows, count_empty saved k rows)
    unfolding save_rows
    parse_lines-save_rows [] current d k first ok reads = nothing current d k
    parse_lines-save_rows (e ∷ rows) current d k first (ok, oks) (read, reads) =
        let m : List ℕ = e.module_name in
        let more : List ℕ = save_rows p saved false m rows in
        ap result (
          parse_lines-header current m (pair_text p saved e ++ more) d k first ok.1
          ∙ parse_lines-pair e more d k ok read)
        ∙ go (is_empty (field saved e))
            (parse_lines-save_rows rows m d (u16 (k + 1)) false oks reads)
            (parse_lines-save_rows rows m (set d e.offset (field saved e)) k false oks reads)
      where
        go :
            (b : Bool)
            → result (
                parse_lines p
                  (reading e.module_name d (u16 (k + 1)))
                  (split_lines [] (save_rows p saved false e.module_name rows)))
              ≡ (absorb saved d rows, count_empty saved (u16 (k + 1)) rows)
            → result (
                parse_lines p
                  (reading e.module_name (set d e.offset (field saved e)) k)
                  (split_lines [] (save_rows p saved false e.module_name rows)))
              ≡ (absorb saved (set d e.offset (field saved e)) rows, count_empty saved k rows)
            → result (
                parse_lines p
                  (if b
                    then reading e.module_name d (u16 (k + 1))
                    else reading e.module_name (set d e.offset (field saved e)) k)
                  (split_lines [] (save_rows p saved false e.module_name rows)))
              ≡ (
                absorb saved (if b then d else set d e.offset (field saved e)) rows,
                count_empty saved (if b then u16 (k + 1) else k) rows,
              )
        go true skipped kept = skipped
        go false skipped kept = kept

pub table-RowOk : All RowOk table
unfolding table find find_in same_text
table-RowOk = ground arith

-- ===== src/RobotSettings/Calls.antt =====
-- lib/RobotSettings: any calls keep every field a value of its type.
use bally_os.Base.{
  ℕ, ◌-◌, ◌≡◌, refl, sym, suc, subst, Bool, true, false, ◌||◌, Option, none, some, List, [], ◌∷◌,
  get_or, take, arith, ◌==◌, if◌then◌else◌,
}
use bally_os.RobotSettings.Table.{SettingEntry, number, SettingsData, default_settings, table}
use bally_os.RobotSettings.Entries.{
  Platform, set_entry, same_text, parse_into, find, set_setting, reset_all, restore, reset_rows,
  reset_module,
}
use bally_os.RobotSettings.File.{
  Parsing, skip_line, parse_header, count_failure, parse_pair, parse_trimmed, parse_line,
  parse_lines, parse_file, parse_found, from_file, parse_read, parse_bytes, Card, Stored, save,
  count_save, write_file, load, split_lines, split_at, skip_blanks, max_file_bytes,
}
use bally_os.RobotSettings.Typed.{
  GivesFloats, IsTyped, At, Typed-set, Typed-get, At-table, find-At, parse_into-IsTyped,
  default_settings-IsTyped,
}

-- The calls that change the settings; a card is as it is found at the call.
pub data Call : Type 0 where
  set_call : Option (List ℕ) → Option (List ℕ) → Option (List ℕ) → Call
  reset_all_call : Call
  reset_module_call : Option (List ℕ) → Call
  load_call save_call : Card → Call

abbrev pub with_settings : Stored → SettingsData → Stored
with_settings s d = record s { settings = d }

unfoldable pub perform : Platform → Stored → Call → Stored
perform p s (set_call m k value) = with_settings s (set_setting p s.settings m k value).0
perform p s reset_all_call = with_settings s (reset_all s.settings)
perform p s (reset_module_call m) = with_settings s (reset_module s.settings m).0
perform p s (load_call card) = (load p s card).0
perform p s (save_call card) = (save p s card).0

unfoldable pub perform_all : Platform → Stored → List Call → Stored
perform_all p s [] = s
perform_all p s (call ∷ calls) = perform_all p (perform p s call) calls

restore-IsTyped :
    (d : SettingsData) (i : ℕ) (e : SettingEntry) → IsTyped d → At table i e → IsTyped (restore d e)
unfolding restore
restore-IsTyped d i e t row =
    Typed-set table d e.offset e (get_or default_settings e.offset (number 0)) t (At-table i e row)
      (Typed-get table default_settings e.offset e (number 0) default_settings-IsTyped
        (At-table i e row))

reset_rows-IsTyped :
    (rows : List SettingEntry) (d : SettingsData) (m : List ℕ)
    → ((i : ℕ) (e : SettingEntry) → At rows i e → (j : ℕ) × At table j e)
    → IsTyped d
    → IsTyped (reset_rows d m rows).0
unfolding reset_rows
reset_rows-IsTyped [] d m inside t = t
reset_rows-IsTyped (e ∷ rows) d m inside t =
    go (same_text e.module_name m) (reset_rows-IsTyped rows d m (λ i f row. inside (suc i) f row) t)
      (reset_rows-IsTyped rows (restore d e) m (λ i f row. inside (suc i) f row)
        (let (j, row) = inside 0 e refl in restore-IsTyped d j e t row))
  where
    go :
        (b : Bool)
        → IsTyped (reset_rows d m rows).0
        → IsTyped (reset_rows (restore d e) m rows).0
        → IsTyped (if b then ((reset_rows (restore d e) m rows).0, true) else reset_rows d m rows).0
    go true without with_it = with_it
    go false without with_it = without

module _ (p : Platform) (floats : GivesFloats p) where
  set_setting-IsTyped :
      (d : SettingsData) (m k value : Option (List ℕ))
      → IsTyped d
      → IsTyped (set_setting p d m k value).0
  unfolding set_setting set_entry
  set_setting-IsTyped d m k value t = go (find m k) (λ e. find-At m k e)
    where
      go :
          (o : Option SettingEntry)
          → ((e : SettingEntry) → o ≡ some e → At table e.offset e)
          → IsTyped (set_entry p d value o).0
      go none row = t
      go (some e) row = parse_into-IsTyped p floats d e value t (row e refl)

  reset_module-IsTyped :
      (d : SettingsData) (m : Option (List ℕ)) → IsTyped d → IsTyped (reset_module d m).0
  unfolding reset_module
  reset_module-IsTyped d none t = t
  reset_module-IsTyped d (some []) t = t
  reset_module-IsTyped d (some (c ∷ m)) t =
      reset_rows-IsTyped table d (c ∷ m) (λ i e row. (i, row)) t

  count_failure-IsTyped :
      (s : Parsing) (r : SettingsData × Bool) → IsTyped r.0 → IsTyped (count_failure s r).settings
  unfolding count_failure skip_line
  count_failure-IsTyped s (d, true) t = t
  count_failure-IsTyped s (d, false) t = t

  parse_header-settings :
      (s : Parsing) (o : Option (List ℕ × List ℕ)) → (parse_header s o).settings ≡ s.settings
  unfolding parse_header
  parse_header-settings s none = refl
  parse_header-settings s (some ([], after)) = refl
  parse_header-settings s (some (c ∷ name, after)) = refl

  parse_found-IsTyped :
      (s : Parsing) (value : List ℕ) (o : Option SettingEntry)
      → IsTyped s.settings
      → ((e : SettingEntry) → o ≡ some e → At table e.offset e)
      → IsTyped (parse_found p s value o).settings
  unfolding parse_found skip_line
  parse_found-IsTyped s value none t row = t
  parse_found-IsTyped s value (some e) t row =
      count_failure-IsTyped s (parse_into p s.settings e (some value))
        (parse_into-IsTyped p floats s.settings e (some value) t (row e refl))

  parse_pair-IsTyped :
      (s : Parsing) (o : Option (List ℕ × List ℕ))
      → IsTyped s.settings
      → IsTyped (parse_pair p s o).settings
  unfolding parse_pair skip_line
  parse_pair-IsTyped s none t = t
  parse_pair-IsTyped s (some (key, value)) t =
      parse_found-IsTyped s value (find (some s.current_module) (some key)) t
        (λ e. find-At (some s.current_module) (some key) e)

  parse_trimmed-IsTyped :
      (s : Parsing) (line : List ℕ) → IsTyped s.settings → IsTyped (parse_trimmed p s line).settings
  unfolding parse_trimmed
  parse_trimmed-IsTyped s [] t = t
  parse_trimmed-IsTyped s (c ∷ rest) t = go (c == b'[') (c == b'#' || c == b';')
    where
      go :
          (header comment : Bool)
          → IsTyped
              (if header
                then parse_header s (split_at b']' rest)
                else if comment
                then s
                else parse_pair p s (split_at b'=' (c ∷ rest))).settings
      go true comment = subst IsTyped (sym (parse_header-settings s (split_at b']' rest))) t
      go false true = t
      go false false = parse_pair-IsTyped s (split_at b'=' (c ∷ rest)) t

  parse_lines-IsTyped :
      (s : Parsing) (lines : List (List ℕ))
      → IsTyped s.settings
      → IsTyped (parse_lines p s lines).settings
  unfolding parse_lines parse_line
  parse_lines-IsTyped s [] t = t
  parse_lines-IsTyped s (line ∷ lines) t =
      parse_lines-IsTyped (parse_line p s line) lines (parse_trimmed-IsTyped s (skip_blanks line) t)

  save-settings : (s : Stored) (card : Card) → (save p s card).0.settings ≡ s.settings
  unfolding save count_save write_file
  save-settings s card = ground arith

  from_file-IsTyped :
      (s : Stored) (card : Card) (o : Option (List ℕ))
      → IsTyped s.settings
      → IsTyped (from_file p s card (parse_read p s.settings 0 o)).0.settings
  unfolding from_file parse_read parse_bytes
  from_file-IsTyped s card none t = subst IsTyped (sym (save-settings s card)) t
  from_file-IsTyped s card (some bytes) t =
      parse_lines-IsTyped (record { current_module = []; settings = s.settings; skipped_lines = 0 })
        (split_lines [] (take (max_file_bytes - 1) bytes)) t

  load-IsTyped :
      (s : Stored) (card : Card) → IsTyped s.settings → IsTyped (load p s card).0.settings
  unfolding load parse_file
  load-IsTyped s card t = go card.mounted
    where
      go :
          (mounted : Bool)
          → IsTyped
              (if mounted
                then from_file p s card
                    (if mounted then parse_read p s.settings 0 card.file else none)
                else (s, card, false, 0)).0.settings
      go true = from_file-IsTyped s card card.file t
      go false = t

  perform-IsTyped :
      (s : Stored) (call : Call) → IsTyped s.settings → IsTyped (perform p s call).settings
  unfolding perform reset_all
  perform-IsTyped s (set_call m k value) t = set_setting-IsTyped s.settings m k value t
  perform-IsTyped s reset_all_call t = default_settings-IsTyped
  perform-IsTyped s (reset_module_call m) t = reset_module-IsTyped s.settings m t
  perform-IsTyped s (load_call card) t = load-IsTyped s card t
  perform-IsTyped s (save_call card) t = subst IsTyped (sym (save-settings s card)) t

-- Whatever is set, reset, saved and loaded, from whatever file, every field of the settings holds a
-- value of its type, and every text fits in its buffer; the C library's `strtof` is to give a `float`.
pub perform_all-IsTyped :
    (p : Platform)
    → GivesFloats p
    → (s : Stored) (calls : List Call) → IsTyped s.settings
    → IsTyped (perform_all p s calls).settings
unfolding perform_all
perform_all-IsTyped p floats s [] t = t
perform_all-IsTyped p floats s (call ∷ calls) t =
    perform_all-IsTyped p floats (perform p s call) calls (perform-IsTyped p floats s call t)

-- ===== src/RobotSettings/SaveLoad.antt =====
-- lib/RobotSettings: what a save and a later load, or a `diff`, give.
use bally_os.Base.{
  ℕ, ◌+◌, ◌≡◌, refl, ap, sym, ◌∙◌, subst, Bool, true, false, Option, none, some, List, [], ◌∷◌,
  ◌++◌, codes, if◌then◌else◌, All, u32,
}
use bally_os.RobotSettings.Numbers.{print_unsigned, put_digits}
use bally_os.RobotSettings.Table.{SettingEntry, SettingsData, default_settings, table}
use bally_os.RobotSettings.Texts.{same_text_self}
use bally_os.RobotSettings.Entries.{Platform, format_value, format_entry}
use bally_os.RobotSettings.File.{
  parse_read, parse_file, from_file, Card, write_file, Stored, save, count_save, load, save_text,
  diff, diff_text, diff_rows, compare_row,
}
use bally_os.RobotSettings.Typed.{IsTyped, default_settings-IsTyped}
use bally_os.RobotSettings.Reading.{is_empty}
use bally_os.RobotSettings.RoundTrip.{field, absorb, count_empty}
use bally_os.RobotSettings.Merge.{CanReadBack, Merged, parse_bytes-save_text, absorb-Merged}

-- The texts that are empty are those that are compiled in as empty.
abbrev pub EmptyAsCompiled : SettingsData → Type 0
EmptyAsCompiled d =
    All (λ e. is_empty (field d e) ≡ true → field default_settings e ≡ field d e) table

module _ (p : Platform) where
  compare_row-same : (e : SettingEntry) (o : Option (List ℕ)) → compare_row e o o ≡ none
  unfolding compare_row
  compare_row-same e none = refl
  compare_row-same e (some s) = rw (same_text_self s) refl

  diff_rows-same :
      (memory on_card : SettingsData) (rows : List SettingEntry)
      → All (λ e. field on_card e ≡ field memory e) rows
      → diff_rows p memory on_card rows ≡ ([], 0)
  unfolding diff_rows format_entry
  diff_rows-same memory on_card [] same = refl
  diff_rows-same memory on_card (e ∷ rows) (here, same) =
      let own : compare_row e (format_entry p memory e) (format_entry p on_card e) ≡ none =
        ap (λ v. compare_row e (format_entry p memory e) (format_value p e.type v)) here
        ∙ compare_row-same e (format_entry p memory e) in
      rw own (diff_rows-same memory on_card rows same)

module _ (p : Platform) (saved : SettingsData) (typed : IsTyped saved)
    (reads : CanReadBack p saved) where
  parse_file-saved :
      (card : Card) (d : SettingsData)
      → card.mounted ≡ true
      → card.file ≡ some (save_text p saved)
      → parse_file p card d 0 ≡ some (absorb saved d table, count_empty saved 0 table)
  unfolding parse_file parse_read
  parse_file-saved card d mounted file =
      ap (λ b. if b then parse_read p d 0 card.file else none) mounted
      ∙ ap (parse_read p d 0) file
      ∙ ap some (parse_bytes-save_text p saved typed reads d 0)

  merged-same :
      (rows : List SettingEntry) (after : SettingsData)
      → All
          (λ e.
            field after e
            ≡ (if is_empty (field saved e) then field default_settings e else field saved e))
          rows
      → All (λ e. is_empty (field saved e) ≡ true → field default_settings e ≡ field saved e) rows
      → All (λ e. field after e ≡ field saved e) rows
  merged-same [] after merged blank = tt
  merged-same (e ∷ rows) after (here, merged) (blank, blanks) =
      (here ∙ go (is_empty (field saved e)) blank, merged-same rows after merged blanks)
    where
      go :
          (b : Bool)
          → (b ≡ true → field default_settings e ≡ field saved e)
          → (if b then field default_settings e else field saved e) ≡ field saved e
      go true same = same refl
      go false same = refl

load_saved :
    (p : Platform) (saved : SettingsData) (typed : IsTyped saved) (reads : CanReadBack p saved)
    (t : Stored) (card : Card)
    → card.mounted ≡ true
    → card.file ≡ some (save_text p saved)
    → load p t card ≡ (
      record t { settings = absorb saved t.settings table },
      card,
      true,
      count_empty saved 0 table,
    )
unfolding load from_file
load_saved p saved typed reads t card mounted file =
    ap (λ b. if b then from_file p t card (parse_file p card t.settings 0) else (t, card, false, 0))
      mounted
    ∙ ap (from_file p t card) (parse_file-saved p saved typed reads card t.settings mounted file)

abbrev saved_card : Platform → Stored → Card → Card
saved_card p s card = record card { file = some (save_text p s.settings) }

save_accepted :
    (p : Platform) (s : Stored) (card : Card)
    → card.mounted ≡ true
    → card.accepts ≡ true
    → save p s card
      ≡ (record s { save_revision = u32 (s.save_revision + 1) }, saved_card p s card, true)
unfolding save count_save write_file
save_accepted p s card mounted accepts =
    ap
      (λ b. if b then count_save s (write_file card (save_text p s.settings)) else (s, card, false))
      mounted
    ∙ ap
        (λ b. count_save s (
          if b
          then (saved_card p s card, true)
          else (record card { file = card.left_over }, false)))
        accepts

-- What a save and a later load come to.
abbrev pub LoadSaves : Platform → Stored → Stored → Stored × Card × Bool → Type 0
LoadSaves p s t (saved, written, done) =
    let (loaded, after, read, skipped) = load p t written in
    (done ≡ true)
    × (saved.save_revision ≡ u32 (s.save_revision + 1))
    × (read ≡ true)
    × (skipped ≡ count_empty s.settings 0 table)
    × (loaded.save_revision ≡ t.save_revision)
    × Merged s.settings t.settings loaded.settings

-- For settings that are typed and that can be read back from how they are shown: each `float` is one that `strtof` gives
-- back for what `snprintf` makes of it (its text has six decimals, so that smaller parts of a value are lost),
-- each pin exists, and no text has an end of line in it. A `save` to a card that takes it, and then a `load` into any typed settings: the load
-- succeeds, each field is the saved one, but where an empty text was saved the old one stays and the line is counted
-- as ignored.
pub load-save :
    (p : Platform) (s t : Stored) (card : Card)
    → IsTyped s.settings
    → CanReadBack p s.settings
    → IsTyped t.settings
    → card.mounted ≡ true
    → card.accepts ≡ true
    → LoadSaves p s t (save p s card)
load-save p s t card typed reads t_typed mounted accepts =
    let back : load p t (saved_card p s card) ≡ (
      record t { settings = absorb s.settings t.settings table },
      saved_card p s card,
      true,
      count_empty s.settings 0 table,
    ) =
      load_saved p s.settings typed reads t (saved_card p s card) mounted refl in
    subst (LoadSaves p s t) (sym (save_accepted p s card mounted accepts)) (
      refl,
      refl,
      ap (λ r. r.2) back,
      ap (λ r. r.3) back,
      ap (λ r. r.0.save_revision) back,
      subst (λ r. Merged s.settings t.settings r.0.settings) (sym back)
          (absorb-Merged p s.settings typed reads t.settings t_typed),
    )

zero_text : print_unsigned 0 ≡ codes "0"
unfolding print_unsigned put_digits
zero_text = refl

-- Right after a `save` to a card that takes it, `diff` reports no difference, if the empty texts are those
-- that are compiled in as empty.
pub diff-save :
    (p : Platform) (s : Stored) (card : Card)
    → IsTyped s.settings
    → CanReadBack p s.settings
    → EmptyAsCompiled s.settings
    → card.mounted ≡ true
    → card.accepts ≡ true
    → diff p s.settings (save p s card).1 ≡ some (codes "differences=0")
unfolding diff diff_text
diff-save p s card typed reads blank mounted accepts =
    ap (λ r. diff p s.settings r.1) (save_accepted p s card mounted accepts)
    ∙ ap (diff_text p s.settings) (
        parse_file-saved p s.settings typed reads (saved_card p s card) default_settings mounted
          refl)
    ∙ ap none_differs (
        diff_rows-same p s.settings (absorb s.settings default_settings table) table (
          merged-same p s.settings typed reads table (absorb s.settings default_settings table)
            (absorb-Merged p s.settings typed reads default_settings default_settings-IsTyped)
            blank))
    ∙ ap (λ t. some (codes "differences=" ++ t)) zero_text
  where
    none_differs : List ℕ × ℕ → Option (List ℕ)
    none_differs (lines, n) = some (lines ++ codes "differences=" ++ print_unsigned n)

-- ===== src/RobotSettings/Merge.antt =====
-- lib/RobotSettings: the fields that a saved file gives over some settings.
use bally_os.Base.{
  ℕ, zero, suc, ◌+◌, ◌<◌, ◌≤◌, ◌≡◌, ◌≢◌, refl, ap, ◌∙◌, subst, Bool, true, false, List, [], ◌∷◌,
  length, get_or, set, take_all, arith, if◌then◌else◌, All, length-set, get_or-set_self,
  get_or-set_ne,
}
use bally_os.RobotSettings.Table.{SettingEntry, Value, number, SettingsData, table}
use bally_os.RobotSettings.Entries.{Platform}
use bally_os.RobotSettings.File.{parse_bytes, parse_lines, split_lines, save_text}
use bally_os.RobotSettings.Typed.{IsTyped, Typed, At, At-offset, All-At, numbered, table-numbered}
use bally_os.RobotSettings.Reading.{ReadsBack, is_empty}
use bally_os.RobotSettings.RoundTrip.{
  field, absorb, count_empty, result, reading, parse_lines-save_rows, table-RowOk,
}
use bally_os.RobotSettings.Size.{length-save_text}

-- One row's step of `absorb`.
abbrev write_field : Bool → SettingsData → SettingEntry → Value → SettingsData
write_field blank d e v = if blank then d else set d e.offset v

write_field-other :
    (blank : Bool) (d : SettingsData) (e : SettingEntry) (v : Value) (j : ℕ)
    → e.offset ≢ j
    → get_or (write_field blank d e v) j (number 0) ≡ get_or d j (number 0)
write_field-other true d e v j other = refl
write_field-other false d e v j other = get_or-set_ne d v (number 0) other

write_field-own :
    (blank : Bool) (d : SettingsData) (e : SettingEntry) (v : Value)
    → e.offset < length d
    → field (write_field blank d e v) e ≡ (if blank then field d e else v)
write_field-own true d e v inside = refl
write_field-own false d e v inside = get_or-set_self d e.offset v (number 0) inside

length-write_field :
    (blank : Bool) (d : SettingsData) (e : SettingEntry) (v : Value)
    → length (write_field blank d e v) ≡ length d
length-write_field true d e v = refl
length-write_field false d e v = length-set d e.offset v

absorb-other :
    (saved d : SettingsData) (n j : ℕ) (rows : List SettingEntry)
    → numbered n rows ≡ true
    → j < n
    → get_or (absorb saved d rows) j (number 0) ≡ get_or d j (number 0)
absorb-other saved d n j [] num low = refl
absorb-other saved d n j (e ∷ rows) num low =
    absorb-other saved (write_field (is_empty (field saved e)) d e (field saved e)) (suc n) j rows
      (ground (arith, num)) (omega arith)
    ∙ write_field-other (is_empty (field saved e)) d e (field saved e) j
        (λ x. ground (arith, num, x))

-- Each row's field is the saved one, or the old one where the saved one is an empty text.
absorb-At :
    (saved d : SettingsData) (n i : ℕ) (rows : List SettingEntry) (e : SettingEntry)
    → numbered n rows ≡ true
    → n + length rows ≤ length d
    → At rows i e
    → field (absorb saved d rows) e
      ≡ (if is_empty (field saved e) then field d e else field saved e)
absorb-At saved d n i [] e num fits row = absurd row
absorb-At saved d n zero (f ∷ rows) e num fits row =
    subst
      (λ g.
        field (absorb saved d (f ∷ rows)) g
        ≡ (if is_empty (field saved g) then field d g else field saved g))
      row
      (absorb-other saved (write_field (is_empty (field saved f)) d f (field saved f)) (suc n)
          f.offset rows (ground (arith, num)) (ground (arith, num))
        ∙ write_field-own (is_empty (field saved f)) d f (field saved f) (ground (arith, num)))
absorb-At saved d n (suc i) (f ∷ rows) e num fits row =
    let next : SettingsData = write_field (is_empty (field saved f)) d f (field saved f) in
    let later : e.offset ≡ suc n + i = At-offset (suc n) rows i e (ground (arith, num)) row in
    let here : f.offset ≡ n = ground (arith, num) in
    absorb-At saved next (suc n) i rows e (ground (arith, num))
      (omega (arith, length-write_field (is_empty (field saved f)) d f (field saved f))) row
    ∙ ap (λ v. if is_empty (field saved e) then v else field saved e)
        (write_field-other (is_empty (field saved f)) d f (field saved f) e.offset
          (λ x. omega (arith, x, later, here)))

pub Typed-length :
    (rows : List SettingEntry) (d : SettingsData) → Typed rows d → length rows ≡ length d
Typed-length [] [] t = refl
Typed-length [] (v ∷ d) t = absurd t
Typed-length (e ∷ rows) [] t = absurd t
Typed-length (e ∷ rows) (v ∷ d) (here, t) = ap suc (Typed-length rows d t)

save_text_read :
    (p : Platform) (saved : SettingsData)
    → All (λ e. ReadsBack p e.type e.size (field saved e)) table
    → (d : SettingsData) (k : ℕ)
    → result (parse_lines p (reading [] d k) (split_lines [] (save_text p saved)))
      ≡ (absorb saved d table, count_empty saved k table)
unfolding save_text
save_text_read p saved reads d k = parse_lines-save_rows p saved table [] d k true table-RowOk reads

-- Every field can be written and read back.
abbrev pub CanReadBack : Platform → SettingsData → Type 0
CanReadBack p d = All (λ e. ReadsBack p e.type e.size (field d e)) table

-- A field of the file where it has one, else the field of `d`.
abbrev pub Merged : SettingsData → SettingsData → SettingsData → Type 0
Merged saved d after =
    All (λ e. field after e ≡ (if is_empty (field saved e) then field d e else field saved e)) table

module _ (p : Platform) (saved : SettingsData) (typed : IsTyped saved)
    (reads : CanReadBack p saved) where
  pub parse_bytes-save_text :
      (d : SettingsData) (k : ℕ)
      → result (parse_bytes p d k (save_text p saved))
        ≡ (absorb saved d table, count_empty saved k table)
  unfolding parse_bytes
  parse_bytes-save_text d k =
      ap (λ t. result (parse_lines p (reading [] d k) (split_lines [] t)))
        (take_all 8191 (save_text p saved) (omega (arith, length-save_text p saved typed)))
      ∙ save_text_read p saved reads d k

  pub absorb-Merged : (d : SettingsData) → IsTyped d → Merged saved d (absorb saved d table)
  absorb-Merged d t = All-At table (λ i e row.
      absorb-At saved d 0 i table e table-numbered (omega (arith, Typed-length table d t)) row)

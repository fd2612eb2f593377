-- ===== src/RobotSettings/Fields.antt =====
-- lib/RobotSettings: what `set` and `reset` do to each field.
use bally_os.Base.{
  ℕ, zero, suc, ◌+◌, ◌<◌, ◌≤◌, ◌≡◌, ◌≢◌, refl, ap, sym, ◌∙◌, subst, Bool, true, false, Option, some,
  List, [], ◌∷◌, length, get_or, set, arith, if◌then◌else◌, All, length-set, get_or-set_self,
  get_or-set_ne, Bool-cases, inl, inr,
}
use bally_os.RobotSettings.Table.{
  SettingEntry, Value, number, SettingsData, default_settings, table,
}
use bally_os.RobotSettings.Entries.{
  Platform, same_text, format_value, format_entry, parse_value, parse_into, find, get_entry, get,
  set_entry, set_setting, restore, reset_rows, reset_module, has_module, module_exists,
}
use bally_os.RobotSettings.Typed.{IsTyped, At, At-offset, numbered, table-numbered}
use bally_os.RobotSettings.Reading.{ReadsBack, is_empty, value-Shown}
use bally_os.RobotSettings.RoundTrip.{field, RowOk, table-RowOk, parse_into-read}
use bally_os.RobotSettings.Merge.{Typed-length}

All-get :
    (P : SettingEntry → Type 0) (rows : List SettingEntry) (i : ℕ) (e : SettingEntry)
    → All P rows
    → At rows i e
    → P e
All-get P [] i e all row = absurd row
All-get P (f ∷ rows) zero e (here, all) row = subst P row here
All-get P (f ∷ rows) (suc i) e (here, all) row = All-get P rows i e all row

At-length : (rows : List SettingEntry) (i : ℕ) (e : SettingEntry) → At rows i e → i < length rows
At-length [] i e row = absurd row
At-length (f ∷ rows) zero e row = omega arith
At-length (f ∷ rows) (suc i) e row = omega (arith, At-length rows i e row)

find_row :
    (i : ℕ) (e : SettingEntry) → At table i e → find (some e.module_name) (some e.key) ≡ some e
find_row i e row = (All-get RowOk table i e table-RowOk row).0

get_row :
    (p : Platform) (d : SettingsData) (i : ℕ) (e : SettingEntry)
    → At table i e
    → get p d (some e.module_name) (some e.key) ≡ format_value p e.type (field d e)
unfolding get get_entry format_entry
get_row p d i e row = ap (get_entry p d) (find_row i e row)

set_row :
    (p : Platform) (d : SettingsData) (i : ℕ) (e : SettingEntry) (value : Option (List ℕ))
    → At table i e
    → set_setting p d (some e.module_name) (some e.key) value ≡ parse_into p d e value
unfolding set_setting set_entry
set_row p d i e value row = ap (set_entry p d value) (find_row i e row)

-- A value that can be read back, other than an empty text: the text that is shown of it sets the setting
-- to it, `get` shows that text afterwards, and every other setting is shown as before.
pub get-set_setting :
    (p : Platform) (d : SettingsData) (i : ℕ) (e : SettingEntry) (v : Value)
    → IsTyped d
    → At table i e
    → ReadsBack p e.type e.size v
    → is_empty v ≡ false
    → (s : List ℕ) × (format_value p e.type v ≡ some s)
      × ((set_setting p d (some e.module_name) (some e.key) (some s)).1 ≡ true)
      × (get p
            (set_setting p d (some e.module_name) (some e.key) (some s)).0
            (some e.module_name)
            (some e.key)
          ≡ some s)
      × ((j : ℕ) (f : SettingEntry)
          → At table j f
          → j ≢ i
          → get p
              (set_setting p d (some e.module_name) (some e.key) (some s)).0
              (some f.module_name)
              (some f.key)
            ≡ get p d (some f.module_name) (some f.key))
get-set_setting p d i e v typed row reads full =
    let (s, shown) = value-Shown p e.type e.size v reads in
    let read : (0 < length s) × (parse_value p e.type e.size s ≡ some v) =
      subst (λ b. if b then s ≡ [] else ((0 < length s) × (parse_value p e.type e.size s ≡ some v)))
        full shown.2 in
    let written : set_setting p d (some e.module_name) (some e.key) (some s)
        ≡ (set d e.offset v, true) =
      set_row p d i e (some s) row ∙ parse_into-read p d e s v read.0 read.1 in
    let place : e.offset ≡ 0 + i = At-offset 0 table i e table-numbered row in
    (
      s,
      shown.0,
      ap (λ r. r.1) written,
      ap (λ r. get p r.0 (some e.module_name) (some e.key)) written
          ∙ get_row p (set d e.offset v) i e row
          ∙ ap (format_value p e.type) (
              get_or-set_self d e.offset v (number 0)
                (omega (arith, place, At-length table i e row, Typed-length table d typed)))
          ∙ shown.0,
      λ j f other ne.
          ap (λ r. get p r.0 (some f.module_name) (some f.key)) written
          ∙ get_row p (set d e.offset v) j f other
          ∙ ap (format_value p f.type) (
              get_or-set_ne d v (number 0)
                (λ x. ne (omega (arith, x, place, At-offset 0 table j f table-numbered other))))
          ∙ sym (get_row p d j f other),
    )

-- One row's step of `reset_rows`.
abbrev reset_field : Bool → SettingsData → SettingEntry → SettingsData
reset_field wanted d e = if wanted then restore d e else d

reset_field-other :
    (wanted : Bool) (d : SettingsData) (e : SettingEntry) (j : ℕ)
    → e.offset ≢ j
    → get_or (reset_field wanted d e) j (number 0) ≡ get_or d j (number 0)
unfolding restore
reset_field-other true d e j other =
    get_or-set_ne d (get_or default_settings e.offset (number 0)) (number 0) other
reset_field-other false d e j other = refl

reset_field-own :
    (wanted : Bool) (d : SettingsData) (e : SettingEntry)
    → e.offset < length d
    → field (reset_field wanted d e) e ≡ (if wanted then field default_settings e else field d e)
unfolding restore
reset_field-own true d e inside =
    get_or-set_self d e.offset (get_or default_settings e.offset (number 0)) (number 0) inside
reset_field-own false d e inside = refl

length-reset_field :
    (wanted : Bool) (d : SettingsData) (e : SettingEntry)
    → length (reset_field wanted d e) ≡ length d
unfolding restore
length-reset_field true d e = length-set d e.offset (get_or default_settings e.offset (number 0))
length-reset_field false d e = refl

reset_rows-cons :
    (d : SettingsData) (m : List ℕ) (e : SettingEntry) (rows : List SettingEntry)
    → (reset_rows d m (e ∷ rows)).0
      ≡ (reset_rows (reset_field (same_text e.module_name m) d e) m rows).0
unfolding reset_rows
reset_rows-cons d m e rows = elim (Bool-cases (same_text e.module_name m)) [
  | inl same ↦ rw same refl
  | inr other ↦ rw other refl
]

nil_rows :
    (d : SettingsData) (m : List ℕ) (j : ℕ)
    → get_or (reset_rows d m []).0 j (number 0) ≡ get_or d j (number 0)
unfolding reset_rows
nil_rows d m j = refl

reset_rows-other :
    (d : SettingsData) (m : List ℕ) (n j : ℕ) (rows : List SettingEntry)
    → numbered n rows ≡ true
    → j < n
    → get_or (reset_rows d m rows).0 j (number 0) ≡ get_or d j (number 0)
reset_rows-other d m n j [] num low = nil_rows d m j
reset_rows-other d m n j (e ∷ rows) num low =
    ap (λ t. get_or t j (number 0)) (reset_rows-cons d m e rows)
    ∙ reset_rows-other (reset_field (same_text e.module_name m) d e) m (suc n) j rows
        (ground (arith, num)) (omega arith)
    ∙ reset_field-other (same_text e.module_name m) d e j (λ x. ground (arith, num, x))

reset_rows-At :
    (d : SettingsData) (m : List ℕ) (n i : ℕ) (rows : List SettingEntry) (e : SettingEntry)
    → numbered n rows ≡ true
    → n + length rows ≤ length d
    → At rows i e
    → field (reset_rows d m rows).0 e
      ≡ (if same_text e.module_name m then field default_settings e else field d e)
reset_rows-At d m n i [] e num fits row = absurd row
reset_rows-At d m n zero (f ∷ rows) e num fits row =
    subst
      (λ g.
        field (reset_rows d m (f ∷ rows)).0 g
        ≡ (if same_text g.module_name m then field default_settings g else field d g))
      row
      (ap (λ t. field t f) (reset_rows-cons d m f rows)
        ∙ reset_rows-other (reset_field (same_text f.module_name m) d f) m (suc n) f.offset rows
            (ground (arith, num)) (ground (arith, num))
        ∙ reset_field-own (same_text f.module_name m) d f (ground (arith, num)))
reset_rows-At d m n (suc i) (f ∷ rows) e num fits row =
    let later : e.offset ≡ suc n + i = At-offset (suc n) rows i e (ground (arith, num)) row in
    let here : f.offset ≡ n = ground (arith, num) in
    ap (λ t. field t e) (reset_rows-cons d m f rows)
    ∙ reset_rows-At (reset_field (same_text f.module_name m) d f) m (suc n) i rows e
        (ground (arith, num)) (omega (arith, length-reset_field (same_text f.module_name m) d f))
        row
    ∙ ap (λ v. if same_text e.module_name m then field default_settings e else v)
        (reset_field-other (same_text f.module_name m) d f e.offset
          (λ x. omega (arith, x, later, here)))

reset_rows-done :
    (d : SettingsData) (m : List ℕ) (rows : List SettingEntry)
    → (reset_rows d m rows).1 ≡ has_module m rows
unfolding reset_rows has_module
reset_rows-done d m [] = refl
reset_rows-done d m (e ∷ rows) = ground (arith, reset_rows-done d m rows)

-- `reset_module` succeeds exactly for a module of the table; it gives each of the module's
-- fields its compiled-in value and leaves every other field.
pub reset_module-Resets :
    (d : SettingsData) (c : ℕ) (m : List ℕ)
    → IsTyped d
    → ((reset_module d (some (c ∷ m))).1 ≡ module_exists (some (c ∷ m)))
      × ((i : ℕ) (e : SettingEntry)
          → At table i e
          → field (reset_module d (some (c ∷ m))).0 e
            ≡ (if same_text e.module_name (c ∷ m) then field default_settings e else field d e))
unfolding reset_module module_exists
reset_module-Resets d c m typed = (
  reset_rows-done d (c ∷ m) table,
  λ i e row.
      reset_rows-At d (c ∷ m) 0 i table e table-numbered (omega (arith, Typed-length table d typed))
        row,
)

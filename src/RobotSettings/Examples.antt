-- ===== src/RobotSettings/Examples.antt =====
-- Runs of lib/RobotSettings, and its theorems at concrete inputs.
use bally_os.Base.{
  ℕ, ◌+◌, ◌<◌, ◌^◌, ◌≡◌, ◌≢◌, refl, Bool, true, false, ◌&&◌, Option, none, some, ◌||◌,
  if◌then◌else◌, ◌==◌, subst, inl, inr, Bool-cases, List, [], ◌∷◌, codes, arith, ltb, length, All,
}
use bally_os.RobotSettings.Numbers.{
  print_unsigned, print_signed, strtoul, strtol, whole, to_unsigned, to_signed, scan_number,
}
use bally_os.RobotSettings.Table.{
  SettingType, whole32, whole8, real, pin, string, SettingEntry, Value, number, text, entry,
  SettingsData, default_settings, table,
}
use bally_os.RobotSettings.Entries.{same_text, Platform, format_value, get, set_setting}
use bally_os.RobotSettings.File.{Card, Stored, save, save_text, max_file_bytes}
use bally_os.RobotSettings.Typed.{
  GivesFloats, IsTyped, default_settings-IsTyped, to_unsigned-below, At, All-At,
}
use bally_os.RobotSettings.Calls.{
  Call, set_call, reset_module_call, save_call, perform_all, perform_all-IsTyped,
}
use bally_os.RobotSettings.Lines.{InLine}
use bally_os.RobotSettings.Reading.{ReadsBack, is_empty}
use bally_os.RobotSettings.RoundTrip.{field}
use bally_os.RobotSettings.Merge.{CanReadBack}
use bally_os.RobotSettings.Size.{length-save_text}
use bally_os.RobotSettings.SaveLoad.{LoadSaves, load-save, EmptyAsCompiled}
use bally_os.RobotSettings.Fields.{get-set_setting}
use bally_os.RobotSettings.Appliers.{ApplyFn, ApplierEntry, apply_all, register_applier}
use bally_os.RobotSettings.Appliers.Registry.{
  Registered, Registers, register_applier-Registers, worlds, apply_all-length,
}

-- A `float` shown by its pattern, and a chip with pins 0 to 48.
abbrev bench : Platform
bench = record { print_float = print_unsigned; strtof = strtoul; gpio_is_valid = λ n. ltb n 49 }

bench-GivesFloats : GivesFloats bench
unfolding strtoul
bench-GivesFloats value x h = to_unsigned-below x (scan_number value) h

abbrev plain : List ℕ → Bool
plain [] = true
plain (c ∷ s) = ltb 13 c && plain s

plain-InLine : (s : List ℕ) → plain s ≡ true → All InLine s
plain-InLine [] h = tt
plain-InLine (c ∷ s) h = (
  (ground (arith, h), λ e. ground (arith, h, e), λ e. ground (arith, h, e)),
  plain-InLine s (ground (arith, h)),
)

-- The floats that are compiled in, and the texts of six decimals that stand for them.
abbrev compiled_floats : List (ℕ × List ℕ)
compiled_floats =
    (0x3dcccccd, codes "0.100000")
    ∷ (0x38d1b717, codes "0.000100")
    ∷ (0x3f000000, codes "0.500000")
    ∷ (0x3a83126f, codes "0.001000")
    ∷ (0x428c0000, codes "70.000000")
    ∷ (0x3d051eb8, codes "0.032500")
    ∷ []

abbrev text_of : List (ℕ × List ℕ) → ℕ → List ℕ
text_of [] n = codes "0.000000"
text_of ((m, s) ∷ rest) n = if m == n then s else text_of rest n

abbrev float_of : List (ℕ × List ℕ) → List ℕ → Option (ℕ × List ℕ)
float_of [] s = none
float_of ((m, s') ∷ rest) s = if same_text s' s then some (m, []) else float_of rest s

-- A chip with pins 0 to 48 on which those floats are printed and read.
abbrev printing : Platform
printing = record {
  print_float = text_of compiled_floats;
  strtof = float_of compiled_floats;
  gpio_is_valid = λ n. ltb n 49;
}

abbrev is_compiled : List (ℕ × List ℕ) → ℕ → Bool
is_compiled [] n = false
is_compiled ((m, s) ∷ rest) n = m == n || is_compiled rest n

one_of :
    (P : ℕ → Type 0) (floats : List (ℕ × List ℕ)) (n : ℕ)
    → All (λ (f : ℕ × List ℕ). P f.0) floats
    → is_compiled floats n ≡ true
    → P n
one_of P [] n each h = absurd cc
one_of P ((m, s) ∷ rest) n (here, each) h = elim (Bool-cases (m == n)) [
  | inl e ↦ subst P (ground (arith, e)) here
  | inr e ↦ one_of P rest n each (ground (arith, e, h))
]

compiled_each : All (λ (f : ℕ × List ℕ). ReadsBack printing real 4 (number f.0)) compiled_floats
unfolding whole same_text
compiled_each = (
  (refl, plain-InLine (codes "0.100000") refl, omega arith, omega arith),
  (
    (refl, plain-InLine (codes "0.000100") refl, omega arith, omega arith),
    (
      (refl, plain-InLine (codes "0.500000") refl, omega arith, omega arith),
      (
        (refl, plain-InLine (codes "0.001000") refl, omega arith, omega arith),
        (
          (refl, plain-InLine (codes "70.000000") refl, omega arith, omega arith),
          ((refl, plain-InLine (codes "0.032500") refl, omega arith, omega arith), tt),
        ),
      ),
    ),
  ),
)

compiled-ReadsBack :
    (n : ℕ) → is_compiled compiled_floats n ≡ true → ReadsBack printing real 4 (number n)
compiled-ReadsBack n h =
    one_of (λ m. ReadsBack printing real 4 (number m)) compiled_floats n compiled_each h

-- A test for `ReadsBack` on that chip.
abbrev readable : SettingType → ℕ → Value → Bool
readable whole32 size (number n) = ltb n (2 ^ 32)
readable whole8 size (number n) = ltb n (2 ^ 8)
readable real size (number n) = is_compiled compiled_floats n
readable pin size (number n) = ltb n 49
readable string size (number n) = false
readable string size (text s) = ltb (length s) size && plain s
readable whole32 size (text s) = false
readable whole8 size (text s) = false
readable real size (text s) = false
readable pin size (text s) = false

readable-ReadsBack :
    (t : SettingType) (size : ℕ) (v : Value)
    → readable t size v ≡ true
    → ReadsBack printing t size v
readable-ReadsBack whole32 size (number n) h = ground (arith, h)
readable-ReadsBack whole8 size (number n) h = ground (arith, h)
readable-ReadsBack real size (number n) h = compiled-ReadsBack n h
readable-ReadsBack pin size (number n) h = (ground (arith, h), h)
readable-ReadsBack string size (number n) h = absurd cc
readable-ReadsBack string size (text s) h = (ground (arith, h), plain-InLine s (ground (arith, h)))
readable-ReadsBack whole32 size (text s) h = absurd cc
readable-ReadsBack whole8 size (text s) h = absurd cc
readable-ReadsBack real size (text s) h = absurd cc
readable-ReadsBack pin size (text s) h = absurd cc

abbrev all_readable : SettingsData → List SettingEntry → Bool
all_readable d [] = true
all_readable d (e ∷ rows) = readable e.type e.size (field d e) && all_readable d rows

all_readable-All :
    (d : SettingsData) (rows : List SettingEntry)
    → all_readable d rows ≡ true
    → All (λ e. ReadsBack printing e.type e.size (field d e)) rows
all_readable-All d [] h = tt
all_readable-All d (e ∷ rows) h = (
  readable-ReadsBack e.type e.size (field d e) (ground (arith, h)),
  all_readable-All d rows (ground (arith, h)),
)

default_settings-readable : all_readable default_settings table ≡ true
unfolding default_settings table
default_settings-readable = refl

default_settings-CanReadBack : CanReadBack printing default_settings
default_settings-CanReadBack = all_readable-All default_settings table default_settings-readable

default_settings-EmptyAsCompiled : EmptyAsCompiled default_settings
default_settings-EmptyAsCompiled = All-At table (λ i e row x. refl)

abbrev factory : Stored
factory = record { settings = default_settings; save_revision = 0 }

abbrev good_card : Card
good_card = record { mounted = true; file = none; accepts = true; left_over = none }

abbrev timers : SettingEntry
timers = entry (codes "timers") (codes "sample_micros") whole32 2 4

timers-At : At table 2 timers
unfolding table
timers-At = refl

load-save_example : LoadSaves printing factory factory (save printing factory good_card)
load-save_example =
    load-save printing factory factory good_card default_settings-IsTyped
      default_settings-CanReadBack default_settings-IsTyped refl refl

length-save_text_example : length (save_text bench default_settings) < max_file_bytes
length-save_text_example = length-save_text bench default_settings default_settings-IsTyped

not_empty : is_empty (number 250) ≡ false
unfolding is_empty
not_empty = refl

-- A number out of range and a long text are refused, a number in range is taken.
abbrev some_calls : List Call
some_calls =
    set_call (some (codes "sensor")) (some (codes "samples")) (some (codes "300"))
    ∷ set_call (some (codes "timers")) (some (codes "timezone"))
        (some (codes "a text of twenty octets"))
    ∷ set_call (some (codes "timers")) (some (codes "delay_flags")) (some (codes "0x100"))
    ∷ save_call good_card
    ∷ reset_module_call (some (codes "timers"))
    ∷ []

perform_all-IsTyped_example : IsTyped (perform_all bench factory some_calls).settings
perform_all-IsTyped_example =
    perform_all-IsTyped bench bench-GivesFloats factory some_calls default_settings-IsTyped

get-set_setting_example :
    (s : List ℕ) × (format_value bench whole32 (number 250) ≡ some s)
    × ((set_setting bench default_settings
          (some (codes "timers"))
          (some (codes "sample_micros"))
          (some s)).1
        ≡ true)
    × (get bench
          (set_setting bench default_settings
            (some (codes "timers"))
            (some (codes "sample_micros"))
            (some s)).0
          (some (codes "timers"))
          (some (codes "sample_micros"))
        ≡ some s)
    × ((j : ℕ) (f : SettingEntry)
        → At table j f
        → j ≢ 2
        → get bench
            (set_setting bench default_settings
              (some (codes "timers"))
              (some (codes "sample_micros"))
              (some s)).0
            (some f.module_name)
            (some f.key)
          ≡ get bench default_settings (some f.module_name) (some f.key))
get-set_setting_example =
    get-set_setting bench default_settings 2 timers (number 250) default_settings-IsTyped timers-At
      (omega arith) not_empty

abbrev count_up : ApplyFn ℕ
count_up d w = (w + 1, true)

abbrev give_up : ApplyFn ℕ
give_up d w = (w, false)

abbrev two_appliers : List (ApplierEntry ℕ)
two_appliers =
    record { module_name = codes "timers"; run = count_up }
    ∷ record { module_name = codes "ota"; run = give_up }
    ∷ []

abbrev one_applier : List (ApplierEntry ℕ)
one_applier = record { module_name = codes "timers"; run = give_up } ∷ []

one_applier-Registered : Registered one_applier
one_applier-Registered = (omega arith, λ m. ground arith)

-- The module has a callback already: it is replaced.
register_applier-Registers_example :
    Registers one_applier
      (some (codes "timers"))
      (some count_up)
      (register_applier one_applier (some (codes "timers")) (some count_up))
register_applier-Registers_example =
    register_applier-Registers one_applier (some (codes "timers")) (some count_up)
      one_applier-Registered

apply_all-length_example :
    ((apply_all two_appliers default_settings 5).0 ≡ worlds two_appliers default_settings 5)
    × ((apply_all two_appliers default_settings 5).1 + (apply_all two_appliers default_settings 5).2
        ≡ 2)
apply_all-length_example = apply_all-length two_appliers default_settings 5

hexadecimal_read : whole (strtoul (codes "0x1F")) ≡ some 31
unfolding whole strtoul to_unsigned scan_number
hexadecimal_read = refl

minus_wraps : whole (strtoul (codes " -1")) ≡ some 4294967295
unfolding whole strtoul to_unsigned scan_number
minus_wraps = refl

octal_read : whole (strtol (codes "-077")) ≡ some 4294967233
unfolding whole strtol to_signed scan_number
octal_read = refl

no_octal_nine : whole (strtol (codes "09")) ≡ none
unfolding whole strtol to_signed scan_number
no_octal_nine = refl

negative_shown : print_signed 4294967233 ≡ codes "-63"
unfolding print_signed print_unsigned
negative_shown = refl

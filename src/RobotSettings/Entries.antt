-- ===== src/RobotSettings/Entries.antt =====
-- lib/RobotSettings: reading and changing one setting, lists of them, and the way back to the
-- compiled-in values. A C string is a text without its closing 0, or nothing for a null pointer.
use bally_os.Base.{
  ℕ, Bool, true, false, ◌&&◌, ◌||◌, Option, none, some, List, [], ◌∷◌, ◌++◌, length, get_or, set,
  take, ltb, leb, ◌==◌, if◌then◌else◌, u8,
}
use bally_os.RobotSettings.Numbers.{print_unsigned, print_signed, strtoul, strtol, whole}
use bally_os.RobotSettings.Table.{
  SettingType, whole32, whole8, real, pin, string, SettingEntry, Value, number, text, SettingsData,
  default_settings, table,
}

-- The conversions of `float` of the C library, "%.6f" and `strtof`, and the test of the chip's pins.
pub record Platform : Type 0 where
  pub print_float : ℕ → List ℕ
  pub strtof : List ℕ → Option (ℕ × List ℕ)
  pub gpio_is_valid : ℕ → Bool

-- `strcmp (a, b) == 0`
unfoldable pub same_text : List ℕ → List ℕ → Bool
same_text [] [] = true
same_text [] (b ∷ bs) = false
same_text (a ∷ rest) [] = false
same_text (a ∷ rest) (b ∷ bs) = a == b && same_text rest bs

-- `snprintf` into the 32 octets of `buf`; a text is copied whole.
unfoldable pub format_value : Platform → SettingType → Value → Option (List ℕ)
format_value p whole32 (number n) = some (take 31 (print_unsigned n))
format_value p whole8 (number n) = some (take 31 (print_unsigned n))
format_value p real (number n) = some (take 31 (p.print_float n))
format_value p pin (number n) = some (take 31 (print_signed n))
format_value p string (text s) = some s
format_value p whole32 (text s) = none
format_value p whole8 (text s) = none
format_value p real (text s) = none
format_value p pin (text s) = none
format_value p string (number n) = none

unfoldable pub format_entry : Platform → SettingsData → SettingEntry → Option (List ℕ)
format_entry p d e = format_value p e.type (get_or d e.offset (number 0))

unfoldable pub bounded : Option ℕ → Option Value
bounded none = none
bounded (some v) = if ltb 255 v then none else some (number (u8 v))

unfoldable pub as_number : Option ℕ → Option Value
as_number none = none
as_number (some v) = some (number v)

unfoldable pub if_valid : Platform → Option ℕ → Option Value
if_valid p none = none
if_valid p (some v) = if p.gpio_is_valid v then some (number v) else none

-- The value that a text which is not empty stands for, in a field of `size` octets.
unfoldable pub parse_value : Platform → SettingType → ℕ → List ℕ → Option Value
parse_value p whole32 size value = as_number (whole (strtoul value))
parse_value p whole8 size value = bounded (whole (strtoul value))
parse_value p real size value = as_number (whole (p.strtof value))
parse_value p pin size value = if_valid p (whole (strtol value))
parse_value p string size value = if leb size (length value) then none else some (text value)

-- The setting written where there is a value, and whether there is.
unfoldable pub store : SettingsData → SettingEntry → Option Value → SettingsData × Bool
store d e none = (d, false)
store d e (some v) = (set d e.offset v, true)

unfoldable pub parse_into :
    Platform → SettingsData → SettingEntry → Option (List ℕ) → SettingsData × Bool
parse_into p d e none = (d, false)
parse_into p d e (some []) = (d, false)
parse_into p d e (some (c ∷ value)) = store d e (parse_value p e.type e.size (c ∷ value))

-- The first row of `rows` with this module and key.
unfoldable pub find_in : List SettingEntry → List ℕ → List ℕ → Option SettingEntry
find_in [] m k = none
find_in (e ∷ rows) m k =
    let rest = find_in rows m k in
    if same_text e.module_name m && same_text e.key k then some e else rest

unfoldable pub find : Option (List ℕ) → Option (List ℕ) → Option SettingEntry
find none k = none
find (some m) none = none
find (some m) (some k) = find_in table m k

unfoldable pub get_entry : Platform → SettingsData → Option SettingEntry → Option (List ℕ)
get_entry p d none = none
get_entry p d (some e) = format_entry p d e

unfoldable pub get : Platform → SettingsData → Option (List ℕ) → Option (List ℕ) → Option (List ℕ)
get p d m k = get_entry p d (find m k)

unfoldable pub set_entry :
    Platform → SettingsData → Option (List ℕ) → Option SettingEntry → SettingsData × Bool
set_entry p d value none = (d, false)
set_entry p d value (some e) = parse_into p d e value

unfoldable pub set_setting :
    Platform
    → SettingsData
    → Option (List ℕ)
    → Option (List ℕ)
    → Option (List ℕ)
    → SettingsData × Bool
set_setting p d m k value = set_entry p d value (find m k)

-- What stays in a `std::string` that `format_entry` may not have written.
unfoldable pub or_empty : Option (List ℕ) → List ℕ
or_empty none = []
or_empty (some s) = s

-- "module.key=value\n"
unfoldable pub list_line : Platform → SettingsData → SettingEntry → List ℕ
list_line p d e = e.module_name ++ b'.' ∷ e.key ++ b'=' ∷ or_empty (format_entry p d e) ++ 10 ∷ []

unfoldable pub list_rows :
    Platform → SettingsData → (SettingEntry → Bool) → List SettingEntry → List ℕ
list_rows p d wanted [] = []
list_rows p d wanted (e ∷ rows) =
    let rest = list_rows p d wanted rows in if wanted e then list_line p d e ++ rest else rest

-- `all || strcmp (entry.module, module) == 0`
unfoldable pub in_list : Option (List ℕ) → SettingEntry → Bool
in_list none e = true
in_list (some []) e = true
in_list (some (c ∷ m)) e = same_text e.module_name (c ∷ m)

unfoldable pub list : Platform → SettingsData → Option (List ℕ) → List ℕ
list p d m = list_rows p d (in_list m) table

unfoldable pub list_all : Platform → SettingsData → List ℕ
list_all p d = list p d none

unfoldable pub reset_all : SettingsData → SettingsData
reset_all d = default_settings

-- The field of the row as compiled in.
unfoldable pub restore : SettingsData → SettingEntry → SettingsData
restore d e = set d e.offset (get_or default_settings e.offset (number 0))

unfoldable pub reset_rows : SettingsData → List ℕ → List SettingEntry → SettingsData × Bool
reset_rows d m [] = (d, false)
reset_rows d m (e ∷ rows) =
    let passed = reset_rows d m rows in
    let restored = reset_rows (restore d e) m rows in
    if same_text e.module_name m then (restored.0, true) else passed

unfoldable pub reset_module : SettingsData → Option (List ℕ) → SettingsData × Bool
reset_module d none = (d, false)
reset_module d (some []) = (d, false)
reset_module d (some (c ∷ m)) = reset_rows d (c ∷ m) table

unfoldable pub has_module : List ℕ → List SettingEntry → Bool
has_module m [] = false
has_module m (e ∷ rows) = same_text e.module_name m || has_module m rows

unfoldable pub module_exists : Option (List ℕ) → Bool
module_exists none = false
module_exists (some []) = false
module_exists (some (c ∷ m)) = has_module (c ∷ m) table

-- ===== src/RobotSettings/Size.antt =====
-- lib/RobotSettings: the file that `save` writes fits in the buffer of `parse_file`.
use bally_os.Base.{
  ℕ, ◌+◌, ◌<◌, ◌≤◌, ◌≡◌, Bool, true, false, List, [], ◌∷◌, ◌++◌, All, length, length-append,
  length-take, arith, if◌then◌else◌, get_or,
}
use bally_os.RobotSettings.Table.{
  SettingType, whole32, whole8, real, pin, string, SettingEntry, Value, number, text, SettingsData,
  table,
}
use bally_os.RobotSettings.Numbers.{print_unsigned, print_signed}
use bally_os.RobotSettings.Entries.{Platform, same_text, format_value, format_entry, or_empty}
use bally_os.RobotSettings.File.{header_text, pair_text, save_rows, save_text, max_file_bytes}
use bally_os.RobotSettings.Typed.{FitsIn, IsTyped, All-At, Typed-get, At-table}

-- Enough room for one row with a header.
abbrev room : List SettingEntry → ℕ
room [] = 0
room (e ∷ rows) = length e.module_name + length e.key + 37 + e.size + room rows

table-room : room table < max_file_bytes
unfolding table
table-room = omega arith

length-format_value :
    (p : Platform) (t : SettingType) (size : ℕ) (v : Value)
    → FitsIn t size v
    → length (or_empty (format_value p t v)) ≤ 31 + size
unfolding format_value or_empty
length-format_value p whole32 size (number n) h = omega (arith, length-take 31 (print_unsigned n))
length-format_value p whole8 size (number n) h = omega (arith, length-take 31 (print_unsigned n))
length-format_value p real size (number n) h = omega (arith, length-take 31 (p.print_float n))
length-format_value p pin size (number n) h = omega (arith, length-take 31 (print_signed n))
length-format_value p string size (number n) h = absurd h
length-format_value p string size (text s) h = omega arith
length-format_value p whole32 size (text s) h = absurd h
length-format_value p whole8 size (text s) h = absurd h
length-format_value p real size (text s) h = absurd h
length-format_value p pin size (text s) h = absurd h

length-header_text : (first : Bool) (m : List ℕ) → length (header_text first m) ≤ length m + 4
unfolding header_text
length-header_text true m = omega (arith, length-append (b'[' ∷ m) (b']' ∷ 10 ∷ []))
length-header_text false m = omega (arith, length-append (b'[' ∷ m) (b']' ∷ 10 ∷ []))

length-pair_text :
    (p : Platform) (d : SettingsData) (e : SettingEntry)
    → length (pair_text p d e) ≡ length e.key + 2 + length (or_empty (format_entry p d e))
unfolding pair_text
length-pair_text p d e =
    let shown : List ℕ = or_empty (format_entry p d e) in
    omega (
      arith,
      length-append e.key (b'=' ∷ shown),
      length-append (e.key ++ b'=' ∷ shown) (10 ∷ []),
      length-append e.key (b'=' ∷ shown ++ 10 ∷ []),
      length-append shown (10 ∷ []),
    )

length-optional :
    (b : Bool) (first : Bool) (m : List ℕ)
    → length (if b then [] else header_text first m) ≤ length m + 4
length-optional true first m = omega arith
length-optional false first m = length-header_text first m

length-save_rows :
    (p : Platform) (d : SettingsData) (first : Bool) (current : List ℕ) (rows : List SettingEntry)
    → All (λ e. length (or_empty (format_entry p d e)) ≤ 31 + e.size) rows
    → length (save_rows p d first current rows) ≤ room rows
unfolding save_rows
length-save_rows p d first current [] fits = omega arith
length-save_rows p d first current (e ∷ rows) (fit, fits) =
    let more : List ℕ = save_rows p d false e.module_name rows in
    let header : List ℕ =
      if same_text current e.module_name then [] else header_text first e.module_name in
    let bound : length (header ++ (pair_text p d e ++ more)) ≤ room (e ∷ rows) = omega (
      arith,
      fit,
      length-append header (pair_text p d e ++ more),
      length-append (pair_text p d e) more,
      length-pair_text p d e,
      length-optional (same_text current e.module_name) first e.module_name,
      length-save_rows p d false e.module_name rows fits,
    ) in
    bound

-- Whatever the settings hold, the file that `save` writes is shorter than the 8192 octets that a load
-- reads at most.
pub length-save_text :
    (p : Platform) (d : SettingsData) → IsTyped d → length (save_text p d) < max_file_bytes
unfolding save_text format_entry
length-save_text p d typed =
    let fits : All (λ e. length (or_empty (format_entry p d e)) ≤ 31 + e.size) table =
      All-At table (λ i e row.
        length-format_value p e.type e.size (get_or d e.offset (number 0))
          (Typed-get table d e.offset e (number 0) typed (At-table i e row))) in
    omega (arith, table-room, length-save_rows p d true [] table fits)

-- ===== src/RobotSettings/Reading.antt =====
-- lib/RobotSettings: a saved file read back, over any settings.
use bally_os.Base.{
  ℕ, ◌<◌, ◌^◌, ◌≡◌, refl, ap, ◌∙◌, Bool, true, false, some, List, [], ◌∷◌, length, take, take_all,
  arith, if◌then◌else◌, All,
}
use bally_os.RobotSettings.Numbers.{
  strtoul, strtol, whole, to_unsigned, to_signed, scan_number, print_unsigned, print_signed,
}
use bally_os.RobotSettings.Decimal.{
  strtoul-print_unsigned, strtol-print_signed, print_unsigned-Plain, print_signed-Plain,
  length-print_unsigned, length-print_signed,
}
use bally_os.RobotSettings.Table.{
  SettingType, whole32, whole8, real, pin, string, Value, number, text,
}
use bally_os.RobotSettings.Entries.{
  Platform, format_value, parse_value, as_number, bounded, if_valid,
}
use bally_os.RobotSettings.Lines.{InLine}

-- What the C library and the chip are to give for a value. Not every `float` is such a value: "%.6f" keeps six
-- decimals, so that 0.0000001 is printed as 0.000000 and read as 0.
abbrev pub ReadsBack : Platform → SettingType → ℕ → Value → Type 0
ReadsBack p whole32 size (number n) = n < 2 ^ 32
ReadsBack p whole8 size (number n) = n < 2 ^ 8
ReadsBack p real size (number n) =
    (whole (p.strtof (p.print_float n)) ≡ some n)
    × All InLine (p.print_float n)
    × (0 < length (p.print_float n))
    × (length (p.print_float n) < 32)
ReadsBack p pin size (number n) = (n < 2 ^ 32) × (p.gpio_is_valid n ≡ true)
ReadsBack p string size (number n) = ⊥
ReadsBack p string size (text s) = (length s < size) × All InLine s
ReadsBack p whole32 size (text s) = ⊥
ReadsBack p whole8 size (text s) = ⊥
ReadsBack p real size (text s) = ⊥
ReadsBack p pin size (text s) = ⊥

-- An empty text: the value that no line can set.
unfoldable pub is_empty : Value → Bool
is_empty (number n) = false
is_empty (text []) = true
is_empty (text (c ∷ s)) = false

pub All-InLine : (s : List ℕ) → All (λ c. 13 < c) s → All InLine s
All-InLine [] h = tt
All-InLine (c ∷ s) (here, h) =
    ((omega arith, λ e. omega (arith, e), λ e. omega (arith, e)), All-InLine s h)

pub unsigned_nonempty : (s : List ℕ) (n : ℕ) → whole (strtoul s) ≡ some n → 0 < length s
unfolding whole strtoul to_unsigned scan_number
unsigned_nonempty [] n h = absurd cc
unsigned_nonempty (c ∷ s) n h = omega arith

signed_nonempty : (s : List ℕ) (n : ℕ) → whole (strtol s) ≡ some n → 0 < length s
unfolding whole strtol to_signed scan_number
signed_nonempty [] n h = absurd cc
signed_nonempty (c ∷ s) n h = omega arith

-- What is shown of a value: a text without an end of line, that stands for the value again.
abbrev pub Shown : Platform → SettingType → ℕ → Value → List ℕ → Type 0
Shown p t size v s =
    (format_value p t v ≡ some s)
    × All InLine s
    × (if is_empty v then s ≡ [] else ((0 < length s) × (parse_value p t size s ≡ some v)))

-- A number whose text the reader takes.
number-Shown :
    (p : Platform) (t : SettingType) (size n : ℕ) (s : List ℕ)
    → length s < 32
    → format_value p t (number n) ≡ some (take 31 s)
    → All InLine s
    → 0 < length s
    → parse_value p t size s ≡ some (number n)
    → Shown p t size (number n) s
unfolding is_empty
number-Shown p t size n s short shown plain pos read =
    (shown ∙ ap some (take_all 31 s (omega arith)), plain, (pos, read))

pub value-Shown :
    (p : Platform) (t : SettingType) (size : ℕ) (v : Value)
    → ReadsBack p t size v
    → (s : List ℕ) × Shown p t size v s
unfolding format_value parse_value as_number bounded if_valid is_empty
value-Shown p whole32 size (number n) h =
    let read : whole (strtoul (print_unsigned n)) ≡ some n = strtoul-print_unsigned n h in
    (
      print_unsigned n,
      number-Shown p whole32 size n (print_unsigned n) (omega (arith, length-print_unsigned n)) refl
          (All-InLine (print_unsigned n) (print_unsigned-Plain n))
          (unsigned_nonempty (print_unsigned n) n read) (ap as_number read),
    )
value-Shown p whole8 size (number n) h =
    let read : whole (strtoul (print_unsigned n)) ≡ some n =
      strtoul-print_unsigned n (omega arith) in
    (
      print_unsigned n,
      number-Shown p whole8 size n (print_unsigned n) (omega (arith, length-print_unsigned n)) refl
          (All-InLine (print_unsigned n) (print_unsigned-Plain n))
          (unsigned_nonempty (print_unsigned n) n read) (ap bounded read ∙ in_range n h),
    )
  where
    in_range : (n : ℕ) → n < 2 ^ 8 → bounded (some n) ≡ some (number n)
    in_range n h = ground arith
value-Shown p real size (number n) (read, plain, pos, short) = (
  p.print_float n,
  number-Shown p real size n (p.print_float n) short refl plain pos (ap as_number read),
)
value-Shown p pin size (number n) (h, valid) =
    let read : whole (strtol (print_signed n)) ≡ some n = strtol-print_signed n h in
    (
      print_signed n,
      number-Shown p pin size n (print_signed n) (omega (arith, length-print_signed n)) refl
          (All-InLine (print_signed n) (print_signed-Plain n))
          (signed_nonempty (print_signed n) n read) (ap (if_valid p) read ∙ rw valid refl),
    )
value-Shown p string size (number n) h = absurd h
value-Shown p string size (text []) (short, plain) = ([], (refl, tt, refl))
value-Shown p string size (text (c ∷ s)) (short, plain) =
    (c ∷ s, (refl, plain, (omega arith, ground arith)))
value-Shown p whole32 size (text s) h = absurd h
value-Shown p whole8 size (text s) h = absurd h
value-Shown p real size (text s) h = absurd h
value-Shown p pin size (text s) h = absurd h

-- ===== src/RobotSettings/Numbers.antt =====
-- lib/RobotSettings: the conversions of the C library that it calls, on texts without their
-- closing 0: `snprintf` of a whole number in decimal, and `strtoul` and `strtol` with base 0 on
-- a `long` of 32 bits. A `long` is its pattern of bits, a number below 2 ^ 32.
use bally_os.Base.{
  ℕ, zero, suc, ◌+◌, ◌-◌, ◌*◌, ◌/◌, ◌%◌, ◌^◌, Bool, true, false, ◌&&◌, ◌||◌, Option, none, some,
  List, [], ◌∷◌, ltb, leb, ◌==◌, if◌then◌else◌, u32,
}

-- The decimal digits of `n`, at most `fuel` of them, put before `tail`.
unfoldable pub put_digits : ℕ → ℕ → List ℕ → List ℕ
put_digits zero n tail = tail
put_digits (suc fuel) n tail =
    let more = put_digits fuel (n / 10) ((b'0' + n % 10) ∷ tail) in
    if ltb n 10 then (b'0' + n % 10) ∷ tail else more

-- "%lu" and "%u"; ten digits are enough for 32 bits.
unfoldable pub print_unsigned : ℕ → List ℕ
unfolding put_digits
print_unsigned n = put_digits 10 n []

-- "%ld"
unfoldable pub print_signed : ℕ → List ℕ
print_signed n = if ltb n (2 ^ 31) then print_unsigned n else b'-' ∷ print_unsigned (2 ^ 32 - n)

unfoldable pub is_space : ℕ → Bool
is_space c = c == b' ' || (leb 9 c && leb c 13)

-- The value of a digit in `base`.
unfoldable pub digit : ℕ → ℕ → Option ℕ
digit base c =
    let value =
      if leb b'0' c && leb c b'9'
      then c - b'0'
      else if leb b'a' c && leb c b'z'
      then c - b'a' + 10
      else if leb b'A' c && leb c b'Z'
      then c - b'A' + 10
      else base in
    if ltb value base then some value else none

-- The digits from here on, and what follows them.
unfoldable pub scan_digits : ℕ → ℕ → List ℕ → ℕ × List ℕ
unfolding digit
scan_digits base value [] = (value, [])
scan_digits base value (c ∷ text) = elim (digit base c) [
  | none ↦ (value, c ∷ text)
  | some d ↦ scan_digits base (value * base + d) text
]

-- The value after the sign, and the text after the number; nothing where there is no number.
unfoldable pub scan_magnitude : List ℕ → Option (ℕ × List ℕ)
unfolding scan_digits digit
scan_magnitude [] = none
scan_magnitude (c ∷ text) = if c == b'0' then some (prefixed text) else decimal (digit 10 c)
  where
    hexadecimal : List ℕ → ℕ × List ℕ
    hexadecimal [] = scan_digits 8 0 text
    hexadecimal (h ∷ more) = elim (digit 16 h) [ none ↦ (0, text) | some d ↦ scan_digits 16 d more ]

    -- After a first 0: "0x" counts as a prefix only before a digit.
    prefixed : List ℕ → ℕ × List ℕ
    prefixed [] = (0, [])
    prefixed (x ∷ more) =
        if x == b'x' || x == b'X' then hexadecimal more else scan_digits 8 0 (x ∷ more)

    decimal : Option ℕ → Option (ℕ × List ℕ)
    decimal none = none
    decimal (some d) = some (scan_digits 10 d text)

-- Whether there is a minus, the magnitude, and the rest.
unfoldable pub scan_number : List ℕ → Option (Bool × ℕ × List ℕ)
unfolding scan_magnitude is_space
scan_number [] = none
scan_number (c ∷ text) =
    let skipped = scan_number text in
    if is_space c
    then skipped
    else if c == b'-'
    then with_sign true (scan_magnitude text)
    else if c == b'+'
    then with_sign false (scan_magnitude text)
    else with_sign false (scan_magnitude (c ∷ text))
  where
    with_sign : Bool → Option (ℕ × List ℕ) → Option (Bool × ℕ × List ℕ)
    with_sign minus none = none
    with_sign minus (some (value, rest)) = some (minus, value, rest)

-- A value out of range is `ULONG_MAX`, and a minus negates it as an unsigned number.
unfoldable pub to_unsigned : Option (Bool × ℕ × List ℕ) → Option (ℕ × List ℕ)
to_unsigned none = none
to_unsigned (some (minus, value, rest)) = some (
  if ltb value (2 ^ 32) then (if minus then u32 (2 ^ 32 - value) else value) else 2 ^ 32 - 1,
  rest,
)

-- `strtoul (text, &end, 0)`: the number and the text at `end`; none where `end` is the start.
unfoldable pub strtoul : List ℕ → Option (ℕ × List ℕ)
strtoul text = to_unsigned (scan_number text)

-- Out of range it is `LONG_MAX` or `LONG_MIN`.
unfoldable pub to_signed : Option (Bool × ℕ × List ℕ) → Option (ℕ × List ℕ)
to_signed none = none
to_signed (some (minus, value, rest)) = some (
  if minus
      then (if ltb (2 ^ 31) value then 2 ^ 31 else u32 (2 ^ 32 - value))
      else if ltb value (2 ^ 31)
      then value
      else 2 ^ 31 - 1,
  rest,
)

-- `strtol (text, &end, 0)`
unfoldable pub strtol : List ℕ → Option (ℕ × List ℕ)
strtol text = to_signed (scan_number text)

-- The whole text is read: `end != value && *end == '\0'`.
unfoldable pub whole : Option (ℕ × List ℕ) → Option ℕ
whole none = none
whole (some (value, [])) = some value
whole (some (value, c ∷ rest)) = none

-- ===== src/RobotSettings/Decimal.antt =====
-- lib/RobotSettings: what is printed in decimal is read back.
use bally_os.Base.{
  ℕ, zero, suc, ◌+◌, ◌-◌, ◌*◌, ◌/◌, ◌%◌, ◌^◌, ◌≤◌, ◌<◌, ◌≡◌, refl, ap, sym, ◌∙◌, true, false,
  Option, none, some, List, [], ◌∷◌, All, length, arith, ltb, Bool-cases, inl, inr,
}
use bally_os.RobotSettings.Numbers.{
  put_digits, print_unsigned, print_signed, is_space, digit, scan_digits, scan_magnitude,
  scan_number, strtoul, strtol, to_unsigned, to_signed, whole,
}

abbrev ten_to : ℕ → ℕ
ten_to zero = 1
ten_to (suc n) = 10 * ten_to n

digit-decimal : (d : ℕ) → d < 10 → digit 10 (b'0' + d) ≡ some d
unfolding digit
digit-decimal d h = ground arith

scan_digits-cons :
    (value d : ℕ) (text : List ℕ)
    → d < 10
    → scan_digits 10 value ((b'0' + d) ∷ text) ≡ scan_digits 10 (value * 10 + d) text
unfolding scan_digits
scan_digits-cons value d text h = go (digit 10 (b'0' + d)) (digit-decimal d h)
  where
    go :
        (o : Option ℕ)
        → o ≡ some d
        → elim o [
          | none ↦ (value, (b'0' + d) ∷ text)
          | some e ↦ scan_digits 10 (value * 10 + e) text
        ]
          ≡ scan_digits 10 (value * 10 + d) text
    go none e = cc
    go (some x) e =
        ap
          (λ o. elim o [
            | none ↦ (value, (b'0' + d) ∷ text)
            | some e ↦ scan_digits 10 (value * 10 + e) text
          ])
          {x = some x} e

scan_digits-first :
    (d : ℕ) (text : List ℕ) → d < 10 → scan_digits 10 0 ((b'0' + d) ∷ text) ≡ scan_digits 10 d text
scan_digits-first d text h =
    scan_digits-cons 0 d text h ∙ ap (λ k. scan_digits 10 k text) {x = 0 * 10 + d} (omega arith)

scan_digits-put_digits :
    (fuel n : ℕ) (tail : List ℕ)
    → n < ten_to fuel
    → scan_digits 10 0 (put_digits fuel n tail) ≡ scan_digits 10 n tail
unfolding put_digits
scan_digits-put_digits zero n tail h = ap (λ k. scan_digits 10 k tail) (omega arith)
scan_digits-put_digits (suc fuel) n tail h = elim (Bool-cases (ltb n 10)) [
  | inl small ↦
      rw (small, scan_digits-cons 0 (n % 10) tail (omega arith))
        (ap (λ k. scan_digits 10 k tail) {x = 0 * 10 + n % 10} {y = n} (ground arith))
  | inr big ↦
      rw
        (
          big,
          scan_digits-put_digits fuel (n / 10) ((b'0' + n % 10) ∷ tail) (omega arith),
          scan_digits-cons (n / 10) (n % 10) tail (omega arith),
        )
        (ap (λ k. scan_digits 10 k tail) {x = n / 10 * 10 + n % 10} {y = n} (omega arith))
]

-- A positive number starts with a digit that is not 0.
put_digits-head :
    (fuel n : ℕ) (tail : List ℕ)
    → 0 < n
    → n < ten_to fuel
    → (d : ℕ) × (text : List ℕ) × (0 < d) × (d < 10) × (put_digits fuel n tail ≡ (b'0' + d) ∷ text)
unfolding put_digits
put_digits-head zero n tail pos h = absurd (omega arith)
put_digits-head (suc fuel) n tail pos h = elim (Bool-cases (ltb n 10)) [
  | inl small ↦ (n % 10, tail, ground arith, omega arith, rw small refl)
  | inr big ↦
      let (d, text, low, high, e) =
        put_digits-head fuel (n / 10) ((b'0' + n % 10) ∷ tail) (ground arith) (omega arith) in
      (d, text, low, high, rw big e)
]

-- A digit that is not 0 starts a decimal number, with a minus before it or not.
scan_number-digit :
    (d : ℕ) (text : List ℕ)
    → 0 < d
    → d < 10
    → scan_number ((b'0' + d) ∷ text)
      ≡ some (false, (scan_digits 10 d text).0, (scan_digits 10 d text).1)
unfolding scan_number scan_magnitude is_space
scan_number-digit d text low high = ground (arith, digit-decimal d high)

scan_number-minus :
    (d : ℕ) (text : List ℕ)
    → 0 < d
    → d < 10
    → scan_number (b'-' ∷ (b'0' + d) ∷ text)
      ≡ some (true, (scan_digits 10 d text).0, (scan_digits 10 d text).1)
unfolding scan_number scan_magnitude is_space
scan_number-minus d text low high = ground (arith, digit-decimal d high)

scan_digits-nil : (v : ℕ) → scan_digits 10 v [] ≡ (v, [])
unfolding scan_digits
scan_digits-nil v = refl

-- What is printed of a positive number is a digit that is not 0, and digits that give the number.
print_unsigned-reads :
    (n : ℕ)
    → 0 < n
    → n < 2 ^ 32
    → (d : ℕ) × (text : List ℕ) × (0 < d)
      × (d < 10)
      × (print_unsigned n ≡ (b'0' + d) ∷ text)
      × (scan_digits 10 d text ≡ (n, []))
unfolding print_unsigned
print_unsigned-reads n pos h =
    let (d, text, low, high, e) = put_digits-head 10 n [] pos (omega arith) in
    (
      d,
      text,
      low,
      high,
      e,
      sym (scan_digits-first d text high)
          ∙ ap (λ t. scan_digits 10 0 t) (sym e)
          ∙ scan_digits-put_digits 10 n [] (omega arith)
          ∙ scan_digits-nil n,
    )

scan_number-zero : scan_number (print_unsigned 0) ≡ some (false, 0, [])
unfolding scan_number print_unsigned
scan_number-zero = refl

scan_number-print_unsigned :
    (n : ℕ) → n < 2 ^ 32 → scan_number (print_unsigned n) ≡ some (false, n, [])
scan_number-print_unsigned zero h = scan_number-zero
scan_number-print_unsigned (suc m) h =
    let (d, text, low, high, e, read) = print_unsigned-reads (suc m) (omega arith) h in
    rw (e, scan_number-digit d text low high, read) refl

scan_number-negated :
    (n : ℕ) → 0 < n → n < 2 ^ 32 → scan_number (b'-' ∷ print_unsigned n) ≡ some (true, n, [])
scan_number-negated n pos h =
    let (d, text, low, high, e, read) = print_unsigned-reads n pos h in
    rw (e, scan_number-minus d text low high, read) refl

read_unsigned : (n : ℕ) → n < 2 ^ 32 → whole (to_unsigned (some (false, n, []))) ≡ some n
unfolding whole to_unsigned
read_unsigned n h = ground arith

read_signed : (n : ℕ) → n < 2 ^ 31 → whole (to_signed (some (false, n, []))) ≡ some n
unfolding whole to_signed
read_signed n h = ground arith

read_negated :
    (n : ℕ) → 2 ^ 31 ≤ n → n < 2 ^ 32 → whole (to_signed (some (true, 2 ^ 32 - n, []))) ≡ some n
unfolding whole to_signed
read_negated n low h = ground arith

pub strtoul-print_unsigned : (n : ℕ) → n < 2 ^ 32 → whole (strtoul (print_unsigned n)) ≡ some n
unfolding strtoul
strtoul-print_unsigned n h =
    ap (λ r. whole (to_unsigned r)) (scan_number-print_unsigned n h) ∙ read_unsigned n h

pub strtol-print_signed : (n : ℕ) → n < 2 ^ 32 → whole (strtol (print_signed n)) ≡ some n
unfolding strtol print_signed
strtol-print_signed n h = elim (Bool-cases (ltb n (2 ^ 31))) [
  | inl low ↦ rw low (
      ap (λ r. whole (to_signed r)) (scan_number-print_unsigned n h) ∙ read_signed n (ground arith))
  | inr high ↦ rw high (
      ap (λ r. whole (to_signed r)) (scan_number-negated (2 ^ 32 - n) (omega arith) (ground arith))
      ∙ read_negated n (ground arith) h)
]

-- Printed numbers have no end of line, no 0 octet and at most ten digits.
pub put_digits-Plain :
    (fuel n : ℕ) (tail : List ℕ)
    → All (λ c. 13 < c) tail
    → All (λ c. 13 < c) (put_digits fuel n tail)
unfolding put_digits
put_digits-Plain zero n tail t = t
put_digits-Plain (suc fuel) n tail t = elim (Bool-cases (ltb n 10)) [
  | inl small ↦ rw small (omega arith, t)
  | inr big ↦ rw big (put_digits-Plain fuel (n / 10) ((b'0' + n % 10) ∷ tail) (omega arith, t))
]

length-put_digits :
    (fuel n : ℕ) (tail : List ℕ) → length (put_digits fuel n tail) ≤ fuel + length tail
unfolding put_digits
length-put_digits zero n tail = omega arith
length-put_digits (suc fuel) n tail = elim (Bool-cases (ltb n 10)) [
  | inl small ↦ rw small (omega arith)
  | inr big ↦ rw big (omega (arith, length-put_digits fuel (n / 10) ((b'0' + n % 10) ∷ tail)))
]

pub print_unsigned-Plain : (n : ℕ) → All (λ c. 13 < c) (print_unsigned n)
unfolding print_unsigned
print_unsigned-Plain n = put_digits-Plain 10 n [] tt

pub length-print_unsigned : (n : ℕ) → length (print_unsigned n) ≤ 10
unfolding print_unsigned
length-print_unsigned n = omega (arith, length-put_digits 10 n [])

pub print_signed-Plain : (n : ℕ) → All (λ c. 13 < c) (print_signed n)
unfolding print_signed
print_signed-Plain n = elim (Bool-cases (ltb n (2 ^ 31))) [
  | inl low ↦ rw low (print_unsigned-Plain n)
  | inr high ↦ rw high (omega arith, print_unsigned-Plain (2 ^ 32 - n))
]

pub length-print_signed : (n : ℕ) → length (print_signed n) ≤ 11
unfolding print_signed
length-print_signed n = elim (Bool-cases (ltb n (2 ^ 31))) [
  | inl low ↦ rw low (omega (arith, length-print_unsigned n))
  | inr high ↦ rw high (omega (arith, length-print_unsigned (2 ^ 32 - n)))
]

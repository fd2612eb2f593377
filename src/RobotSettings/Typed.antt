-- ===== src/RobotSettings/Typed.antt =====
-- lib/RobotSettings: every field holds a value of its type and fits in its octets.
use bally_os.Base.{
  ℕ, zero, suc, ◌+◌, ◌<◌, ◌^◌, ◌≡◌, refl, sym, subst, Bool, true, false, ◌&&◌, Option, none, some,
  List, [], ◌∷◌, length, get_or, set, arith, leb, ◌==◌, if◌then◌else◌, All,
}
use bally_os.RobotSettings.Numbers.{strtoul, strtol, whole, to_unsigned, to_signed, scan_number}
use bally_os.RobotSettings.Table.{
  SettingType, whole32, whole8, real, pin, string, SettingEntry, Value, number, text, SettingsData,
  default_settings, table,
}
use bally_os.RobotSettings.Entries.{
  Platform, same_text, bounded, as_number, if_valid, parse_value, store, parse_into, find_in, find,
}

-- The C library's `strtof` gives a `float`.
abbrev pub GivesFloats : Platform → Type 0
GivesFloats p = (value : List ℕ) (x : ℕ) → whole (p.strtof value) ≡ some x → x < 2 ^ 32

-- A value of this type, in a field of `size` octets.
abbrev pub FitsIn : SettingType → ℕ → Value → Type 0
FitsIn whole32 size (number n) = n < 2 ^ 32
FitsIn whole8 size (number n) = n < 2 ^ 8
FitsIn real size (number n) = n < 2 ^ 32
FitsIn pin size (number n) = n < 2 ^ 32
FitsIn string size (number n) = ⊥
FitsIn string size (text s) = length s < size
FitsIn whole32 size (text s) = ⊥
FitsIn whole8 size (text s) = ⊥
FitsIn real size (text s) = ⊥
FitsIn pin size (text s) = ⊥

abbrev pub Fits : SettingEntry → Value → Type 0
Fits e v = FitsIn e.type e.size v

-- Field by field.
abbrev pub Typed : List SettingEntry → SettingsData → Type 0
Typed [] [] = Unit
Typed [] (v ∷ d) = ⊥
Typed (e ∷ rows) [] = ⊥
Typed (e ∷ rows) (v ∷ d) = Fits e v × Typed rows d

abbrev pub IsTyped : SettingsData → Type 0
IsTyped d = Typed table d

-- `e` is row `i`.
abbrev pub At : List SettingEntry → ℕ → SettingEntry → Type 0
At [] i e = ⊥
At (f ∷ rows) zero e = f ≡ e
At (f ∷ rows) (suc i) e = At rows i e

-- The offsets count from `n`.
abbrev pub numbered : ℕ → List SettingEntry → Bool
numbered n [] = true
numbered n (e ∷ rows) = e.offset == n && numbered (suc n) rows

pub table-numbered : numbered 0 table ≡ true
unfolding table
table-numbered = refl

pub find_in-At :
    (n : ℕ) (rows : List SettingEntry) (m k : List ℕ) (e : SettingEntry)
    → numbered n rows ≡ true
    → find_in rows m k ≡ some e
    → (i : ℕ) × At rows i e × (e.offset ≡ n + i)
unfolding find_in
find_in-At n [] m k e num h = absurd cc
find_in-At n (f ∷ rows) m k e num h =
    go (same_text f.module_name m && same_text f.key k) h
      (λ later. find_in-At (suc n) rows m k e (ground (arith, num)) later)
  where
    go :
        (found : Bool)
        → (if found then some f else find_in rows m k) ≡ some e
        → (find_in rows m k ≡ some e → (i : ℕ) × At rows i e × (e.offset ≡ suc n + i))
        → (i : ℕ) × At (f ∷ rows) i e × (e.offset ≡ n + i)
    go true here rest = (0, ground (arith, here), ground (arith, here, num))
    go false later rest = let (i, row, o) = rest later in (suc i, row, omega (arith, o))

pub find-At : (m k : Option (List ℕ)) (e : SettingEntry) → find m k ≡ some e → At table e.offset e
unfolding find
find-At none k e h = absurd cc
find-At (some m) none e h = absurd cc
find-At (some m) (some k) e h =
    let (i, row, o) = find_in-At 0 table m k e table-numbered h in
    subst (λ j. At table j e) (omega (arith, o)) row

-- A field that is written with a value that fits.
pub Typed-set :
    (rows : List SettingEntry) (d : SettingsData) (i : ℕ) (e : SettingEntry) (v : Value)
    → Typed rows d
    → At rows i e
    → Fits e v
    → Typed rows (set d i v)
Typed-set [] d i e v t row fits = absurd row
Typed-set (f ∷ rows) [] i e v t row fits = absurd t
Typed-set (f ∷ rows) (w ∷ d) zero e v (here, t) row fits = (subst (λ g. Fits g v) (sym row) fits, t)
Typed-set (f ∷ rows) (w ∷ d) (suc i) e v (here, t) row fits =
    (here, Typed-set rows d i e v t row fits)

pub Typed-get :
    (rows : List SettingEntry) (d : SettingsData) (i : ℕ) (e : SettingEntry) (v : Value)
    → Typed rows d
    → At rows i e
    → Fits e (get_or d i v)
Typed-get [] d i e v t row = absurd row
Typed-get (f ∷ rows) [] i e v t row = absurd t
Typed-get (f ∷ rows) (w ∷ d) zero e v (here, t) row = subst (λ g. Fits g w) row here
Typed-get (f ∷ rows) (w ∷ d) (suc i) e v (here, t) row = Typed-get rows d i e v t row

pub At-offset :
    (n : ℕ) (rows : List SettingEntry) (i : ℕ) (e : SettingEntry)
    → numbered n rows ≡ true
    → At rows i e
    → e.offset ≡ n + i
At-offset n [] i e num row = absurd row
At-offset n (f ∷ rows) zero e num row = ground (arith, num, row)
At-offset n (f ∷ rows) (suc i) e num row =
    omega (arith, At-offset (suc n) rows i e (ground (arith, num)) row)

pub At-table : (i : ℕ) (e : SettingEntry) → At table i e → At table e.offset e
At-table i e row =
    subst (λ j. At table j e) (omega (arith, At-offset 0 table i e table-numbered row)) row

pub All-At {κ} :
    {P : SettingEntry → Type κ} (rows : List SettingEntry)
    → ((i : ℕ) (e : SettingEntry) → At rows i e → P e)
    → All P rows
All-At [] each = tt
All-At (e ∷ rows) each = (each 0 e refl, All-At rows (λ i f row. each (suc i) f row))

pub to_unsigned-below :
    (value : ℕ) (o : Option (Bool × ℕ × List ℕ))
    → whole (to_unsigned o) ≡ some value
    → value < 2 ^ 32
unfolding whole to_unsigned
to_unsigned-below value none h = absurd cc
to_unsigned-below value (some (minus, n, c ∷ rest)) h = absurd cc
to_unsigned-below value (some (minus, n, [])) h = ground (arith, h)

to_signed-below :
    (value : ℕ) (o : Option (Bool × ℕ × List ℕ)) → whole (to_signed o) ≡ some value → value < 2 ^ 32
unfolding whole to_signed
to_signed-below value none h = absurd cc
to_signed-below value (some (minus, n, c ∷ rest)) h = absurd cc
to_signed-below value (some (minus, n, [])) h = ground (arith, h)

as_number-Fits :
    (size : ℕ) (o : Option ℕ) (v : Value)
    → ((n : ℕ) → o ≡ some n → n < 2 ^ 32)
    → as_number o ≡ some v
    → FitsIn whole32 size v × FitsIn real size v
unfolding as_number
as_number-Fits size none v below h = absurd cc
as_number-Fits size (some n) (number m) below h = ground (arith, h, below n refl)
as_number-Fits size (some n) (text s) below h = absurd (ground (arith, h))

bounded-Fits : (size : ℕ) (o : Option ℕ) (v : Value) → bounded o ≡ some v → FitsIn whole8 size v
unfolding bounded
bounded-Fits size none v h = absurd cc
bounded-Fits size (some n) (number m) h = ground (arith, h)
bounded-Fits size (some n) (text s) h = absurd (ground (arith, h))

if_valid-Fits :
    (p : Platform) (size : ℕ) (o : Option ℕ) (v : Value)
    → ((n : ℕ) → o ≡ some n → n < 2 ^ 32)
    → if_valid p o ≡ some v
    → FitsIn pin size v
unfolding if_valid
if_valid-Fits p size none v below h = absurd cc
if_valid-Fits p size (some n) (number m) below h = ground (arith, h, below n refl)
if_valid-Fits p size (some n) (text s) below h = absurd (ground (arith, h))

string-Fits :
    (size : ℕ) (value : List ℕ) (v : Value)
    → (if leb size (length value) then none else some (text value)) ≡ some v
    → FitsIn string size v
string-Fits size value (number m) h = absurd (ground (arith, h))
string-Fits size value (text s) h = ground (arith, h)

pub default_settings-IsTyped : IsTyped default_settings
unfolding table default_settings
default_settings-IsTyped = ground arith

module _ (p : Platform) (floats : GivesFloats p) where
  parse_value-Fits :
      (t : SettingType) (size : ℕ) (value : List ℕ) (v : Value)
      → parse_value p t size value ≡ some v
      → FitsIn t size v
  unfolding parse_value strtoul strtol
  parse_value-Fits whole32 size value v h =
      (as_number-Fits size (whole (strtoul value)) v (λ n. to_unsigned-below n (scan_number value))
        h).0
  parse_value-Fits whole8 size value v h = bounded-Fits size (whole (strtoul value)) v h
  parse_value-Fits real size value v h =
      (as_number-Fits size (whole (p.strtof value)) v (floats value) h).1
  parse_value-Fits pin size value v h =
      if_valid-Fits p size (whole (strtol value)) v (λ n. to_signed-below n (scan_number value)) h
  parse_value-Fits string size value v h = string-Fits size value v h

  store-IsTyped :
      (d : SettingsData) (e : SettingEntry) (o : Option Value)
      → IsTyped d
      → At table e.offset e
      → ((v : Value) → o ≡ some v → Fits e v)
      → IsTyped (store d e o).0
  unfolding store
  store-IsTyped d e none t row fits = t
  store-IsTyped d e (some v) t row fits = Typed-set table d e.offset e v t row (fits v refl)

  pub parse_into-IsTyped :
      (d : SettingsData) (e : SettingEntry) (value : Option (List ℕ))
      → IsTyped d
      → At table e.offset e
      → IsTyped (parse_into p d e value).0
  unfolding parse_into
  parse_into-IsTyped d e none t row = t
  parse_into-IsTyped d e (some []) t row = t
  parse_into-IsTyped d e (some (c ∷ value)) t row =
      store-IsTyped d e (parse_value p e.type e.size (c ∷ value)) t row
        (λ v. parse_value-Fits e.type e.size (c ∷ value) v)

-- ===== src/Logger/Turning.antt =====
-- lib/Logger: the octets of the ring in the order in which they are read.
use bally_os.Base.{
  ℕ, zero, suc, ◌+◌, ◌-◌, ◌%◌, ◌≤◌, ◌<◌, ◌≡◌, refl, sym, ap, ◌∙◌, List, [], ◌∷◌, ◌++◌, append_assoc,
  arith, length, take, drop, length-append, length-take, length-drop, take-append, drop-append,
}
use native.Mathlib.Nat.{mod-eq_of_lt, mod-eq-sub-mod}
use native.Mathlib.Decide.{dec_lt}

-- A ring read once around, from an offset on.
abbrev pub turn : ℕ → List ℕ → List ℕ
turn o st = drop o st ++ take o st

pub take-drop : (n : ℕ) (xs : List ℕ) → take n xs ++ drop n xs ≡ xs
take-drop zero xs = refl
take-drop (suc n) [] = refl
take-drop (suc n) (x ∷ xs) = ap (λ ys. x ∷ ys) (take-drop n xs)

-- A prefix and the rest, of a list in two parts.
pub take-append_lt : (n : ℕ) (xs ys : List ℕ) → n ≤ length xs → take n (xs ++ ys) ≡ take n xs
take-append_lt zero xs ys le = refl
take-append_lt (suc n) [] ys le = absurd (omega arith)
take-append_lt (suc n) (x ∷ xs) ys le = ap (λ zs. x ∷ zs) (take-append_lt n xs ys (omega arith))

pub drop-append_lt : (n : ℕ) (xs ys : List ℕ) → n ≤ length xs → drop n (xs ++ ys) ≡ drop n xs ++ ys
drop-append_lt zero xs ys le = refl
drop-append_lt (suc n) [] ys le = absurd (omega arith)
drop-append_lt (suc n) (x ∷ xs) ys le = drop-append_lt n xs ys (omega arith)

pub take-append_le :
    (n : ℕ) (xs ys : List ℕ) → length xs ≤ n → take n (xs ++ ys) ≡ xs ++ take (n - length xs) ys
take-append_le n [] ys le = ap (λ k. take k ys) {y = n - 0} (omega arith)
take-append_le zero (x ∷ xs) ys le = absurd (omega arith)
take-append_le (suc n) (x ∷ xs) ys le =
    ap (λ zs. x ∷ zs)
      (take-append_le n xs ys (omega arith)
        ∙ ap (λ k. xs ++ take k ys) {y = suc n - suc (length xs)} (omega arith))

pub drop-append_le :
    (n : ℕ) (xs ys : List ℕ) → length xs ≤ n → drop n (xs ++ ys) ≡ drop (n - length xs) ys
drop-append_le n [] ys le = ap (λ k. drop k ys) {y = n - 0} (omega arith)
drop-append_le zero (x ∷ xs) ys le = absurd (omega arith)
drop-append_le (suc n) (x ∷ xs) ys le =
    drop-append_le n xs ys (omega arith)
    ∙ ap (λ k. drop k ys) {y = suc n - suc (length xs)} (omega arith)

-- Past the first part of what is read, that part comes last.
parted :
    (t d x y : List ℕ)
    → d ++ t ≡ x ++ y
    → length d ≤ length x
    → (x ≡ d ++ take (length x - length d) t) × (y ≡ drop (length x - length d) t)
parted t d x y e le = (
  sym (take-append x y) ∙ ap (take (length x)) (sym e) ∙ take-append_le (length x) d t le,
  sym (drop-append 0 x y)
      ∙ ap (λ k. drop k (x ++ y)) {x = length x + 0} (omega arith)
      ∙ ap (drop (length x)) (sym e)
      ∙ drop-append_le (length x) d t le,
)

take-nil : (n : ℕ) → take {A = ℕ} n [] ≡ []
take-nil zero = refl
take-nil (suc n) = refl

drop-nil : (n : ℕ) → drop {A = ℕ} n [] ≡ []
drop-nil zero = refl
drop-nil (suc n) = refl

pub drop-drop : (o n : ℕ) (xs : List ℕ) → drop n (drop o xs) ≡ drop (o + n) xs
drop-drop zero n xs = ap (λ k. drop k xs) {y = 0 + n} (omega arith)
drop-drop (suc o) n [] = drop-nil n ∙ sym (drop-nil (suc o + n))
drop-drop (suc o) n (x ∷ xs) =
    drop-drop o n xs ∙ ap (λ k. drop k (x ∷ xs)) {x = suc (o + n)} {y = suc o + n} (omega arith)

take_add : (o n : ℕ) (xs : List ℕ) → take (o + n) xs ≡ take o xs ++ take n (drop o xs)
take_add zero n xs = ap (λ k. take k xs) {x = 0 + n} (omega arith)
take_add (suc o) n [] = take-nil (suc o + n) ∙ sym (take-nil n)
take_add (suc o) n (x ∷ xs) =
    ap (λ k. take k (x ∷ xs)) {x = suc o + n} {y = suc (o + n)} (omega arith)
    ∙ ap (λ zs. x ∷ zs) (take_add o n xs)

turn-turn :
    (st x y : List ℕ) (o n : ℕ)
    → o + n < length st
    → length x ≡ n
    → turn o st ≡ x ++ y
    → turn (o + n) st ≡ y ++ x
turn-turn st x y o n low size e =
    let d = drop o st in
    let t = take o st in
    let n_le : n ≤ length d = omega (arith, length-drop o st) in
    let xe : x ≡ take n d =
      sym (take-append x y)
      ∙ ap (λ k. take k (x ++ y)) size
      ∙ ap (take n) (sym e)
      ∙ take-append_lt n d t n_le in
    let ye : y ≡ drop n d ++ t =
      sym (drop-append 0 x y)
      ∙ ap (λ k. drop k (x ++ y)) {x = length x + 0} (omega arith)
      ∙ ap (drop n) (sym e)
      ∙ drop-append_lt n d t n_le in
    rw (take_add o n st, ← drop-drop o n st)
      (sym (append_assoc (drop n d) t (take n d))
        ∙ ap (λ z. z ++ take n d) (sym ye)
        ∙ ap (λ z. y ++ z) (sym xe))

turn-wrap :
    (st x y : List ℕ) (o n : ℕ)
    → o < length st
    → length st ≤ o + n
    → length x ≡ n
    → turn o st ≡ x ++ y
    → turn (o + n - length st) st ≡ y ++ x
turn-wrap st x y o n low high size e =
    let d = drop o st in
    let t = take o st in
    let m = o + n - length st in
    let (xe, ye) = parted t d x y e (omega (arith, length-drop o st)) in
    let same : length x - length d ≡ m = omega (arith, length-drop o st) in
    let total : length x + length y ≡ length st = omega (
      arith,
      sym (length-append x y),
      ap (length {A = ℕ}) (sym e),
      length-append d t,
      length-drop o st,
      length-take o st,
    ) in
    let m_le : m ≤ length t = omega (arith, length-take o st) in
    let front : drop m st ≡ drop m t ++ d =
      ap (drop m) (sym (take-drop o st)) ∙ drop-append_lt m t d m_le in
    let back : take m st ≡ take m t =
      ap (take m) (sym (take-drop o st)) ∙ take-append_lt m t d m_le in
    rw (front, back)
      (append_assoc (drop m t) d (take m t)
        ∙ ap (λ z. z ++ (d ++ take m t)) (ap (λ k. drop k t) (sym same) ∙ sym ye)
        ∙ ap (λ z. y ++ z) (ap (λ k. d ++ take k t) (sym same) ∙ sym xe))

pub turn_further :
    (st x y : List ℕ) (o n : ℕ)
    → o < length st
    → length x ≡ n
    → turn o st ≡ x ++ y
    → turn ((o + n) % length st) st ≡ y ++ x
turn_further st x y o n low size e = elim (dec_lt (o + n) (length st)) [
  | yes l ↦ rw (mod-eq_of_lt l) (turn-turn st x y o n l size e)
  | no l ↦
      let total : length x + length y ≡ length st = omega (
        arith,
        sym (length-append x y),
        ap (length {A = ℕ}) (sym e),
        length-append (drop o st) (take o st),
        length-drop o st,
        length-take o st,
      ) in
      elim (dec_lt (o + n - length st) (length st)) [
        | yes k ↦
            rw (mod-eq-sub-mod {n = o + n} {m = length st} (omega arith), mod-eq_of_lt k)
              (turn-wrap st x y o n low (omega arith) size e)
        | no k ↦ absurd (omega arith)
      ]
]

pub take_front : (n : ℕ) (xs ys : List ℕ) → length xs ≡ n → take n (xs ++ ys) ≡ xs
take_front n xs ys e = ap (λ k. take k (xs ++ ys)) (sym e) ∙ take-append xs ys

pub drop_front : (n : ℕ) (xs ys : List ℕ) → length xs ≡ n → drop n (xs ++ ys) ≡ ys
drop_front n xs ys e =
    ap (λ k. drop k (xs ++ ys)) {y = length xs + 0} (omega arith) ∙ drop-append 0 xs ys

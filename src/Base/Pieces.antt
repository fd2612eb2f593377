-- ===== src/Base/Pieces.antt =====
-- A text in pieces of a size, as the loops that send or store one take it.
use Prim.Native.Nat.{ℕ, zero, suc, ◌≤◌, ◌<◌}
use mathlib.Core.Path.{◌≡◌, refl, sym, ap, ◌∙◌}
use mathlib.Core.List.{List, [], ◌∷◌, ◌++◌}
use native.Mathlib.Omega.{arith}
use bally_os.Base.Lists.{length, take, drop, length-drop}

-- A text in pieces of `m` octets, the last one shorter, none for an empty text. The second argument is
-- at least the length of the text.
abbrev pub pieces_within : ℕ → ℕ → List ℕ → List (List ℕ)
pieces_within m zero text = []
pieces_within m (suc n) [] = []
pieces_within m (suc n) (c ∷ cs) = take m (c ∷ cs) ∷ pieces_within m n (drop m (c ∷ cs))

abbrev pub pieces : ℕ → List ℕ → List (List ℕ)
pieces m text = pieces_within m (length text) text

abbrev pub joined : List (List ℕ) → List ℕ
joined [] = []
joined (piece ∷ rest) = piece ++ joined rest

take-drop : (m : ℕ) (xs : List ℕ) → take m xs ++ drop m xs ≡ xs
take-drop zero xs = refl
take-drop (suc m) [] = refl
take-drop (suc m) (x ∷ xs) = ap (λ z. x ∷ z) (take-drop m xs)

-- The pieces are the whole text.
pub joined-pieces_within :
    (m n : ℕ) (text : List ℕ) → 0 < m → length text ≤ n → joined (pieces_within m n text) ≡ text
joined-pieces_within m zero [] room le = refl
joined-pieces_within m zero (c ∷ cs) room le = absurd (omega (arith, le))
joined-pieces_within m (suc n) [] room le = refl
joined-pieces_within m (suc n) (c ∷ cs) room le =
    ap (λ z. take m (c ∷ cs) ++ z)
      (joined-pieces_within m n (drop m (c ∷ cs)) room (omega (arith, length-drop m (c ∷ cs), le)))
    ∙ take-drop m (c ∷ cs)

pub nothing_cut : (m n : ℕ) → pieces_within m n [] ≡ []
nothing_cut m zero = refl
nothing_cut m (suc n) = refl

-- Any bound that is large enough gives the same pieces.
same_pieces :
    (m n k : ℕ) (text : List ℕ)
    → 0 < m
    → length text ≤ n
    → length text ≤ k
    → pieces_within m n text ≡ pieces_within m k text
same_pieces m n k [] room le le' = nothing_cut m n ∙ sym (nothing_cut m k)
same_pieces m zero k (c ∷ cs) room le le' = absurd (omega (arith, le))
same_pieces m (suc n) zero (c ∷ cs) room le le' = absurd (omega (arith, le'))
same_pieces m (suc n) (suc k) (c ∷ cs) room le le' =
    let shorter = length-drop m (c ∷ cs) in
    ap (λ z. take m (c ∷ cs) ∷ z)
      (same_pieces m n k (drop m (c ∷ cs)) room (omega (arith, shorter, le, room))
        (omega (arith, shorter, le', room)))

pub pieces_within-pieces :
    (m n : ℕ) (text : List ℕ) → 0 < m → length text ≤ n → pieces_within m n text ≡ pieces m text
pieces_within-pieces m n text room le = same_pieces m n (length text) text room le (omega arith)

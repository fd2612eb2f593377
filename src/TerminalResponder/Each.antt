-- ===== src/TerminalResponder/Each.antt =====
-- lib/TerminalResponder: slots that are changed one by one, and the invariant.
use bally_os.Base.{suc, ◌≡◌, ap, ◌∙◌, refl, List, [], ◌∷◌, length, All}
use bally_os.TerminalResponder.{Slot, Responder}
use bally_os.TerminalResponder.Invariant.{Fits, Apart, Distinct, IsValid, Stays, Apart-Stays}

module _ {Ed : Type 0} where
  -- Slots that are changed one by one, each staying of its origin.
  abbrev pub Each : List (Slot Ed) → List (Slot Ed) → Type 0
  Each [] [] = Unit
  Each [] (t ∷ ts) = ⊥
  Each (s ∷ ss) [] = ⊥
  Each (s ∷ ss) (t ∷ ts) = Stays s t × (Fits s → Fits t) × Each ss ts

  pub Each-same : (slots : List (Slot Ed)) → Each slots slots
  Each-same [] = tt
  Each-same (s ∷ slots) = (λ u. (u, refl, refl), λ f. f, Each-same slots)

  Each-length : (ss ts : List (Slot Ed)) → Each ss ts → length ts ≡ length ss
  Each-length [] [] each = refl
  Each-length [] (t ∷ ts) each = absurd each
  Each-length (s ∷ ss) [] each = absurd each
  Each-length (s ∷ ss) (t ∷ ts) (a, b, each) = ap suc (Each-length ss ts each)

  Each-Fits : (ss ts : List (Slot Ed)) → Each ss ts → All Fits ss → All Fits ts
  Each-Fits [] [] each fits = tt
  Each-Fits [] (t ∷ ts) each fits = absurd each
  Each-Fits (s ∷ ss) [] each fits = absurd each
  Each-Fits (s ∷ ss) (t ∷ ts) (a, b, each) (fit, fits) = (b fit, Each-Fits ss ts each fits)

  Each-Apart :
      (s t : Slot Ed) (ss ts : List (Slot Ed))
      → Stays s t
      → Each ss ts
      → All (Apart s) ss
      → All (Apart t) ts
  Each-Apart s t [] [] stays each apart = tt
  Each-Apart s t [] (y ∷ ts) stays each apart = absurd each
  Each-Apart s t (x ∷ ss) [] stays each apart = absurd each
  Each-Apart s t (x ∷ ss) (y ∷ ts) stays (a, b, each) (here, apart) =
      (Apart-Stays s t x y stays a here, Each-Apart s t ss ts stays each apart)

  Each-Distinct : (ss ts : List (Slot Ed)) → Each ss ts → Distinct ss → Distinct ts
  Each-Distinct [] [] each d = tt
  Each-Distinct [] (t ∷ ts) each d = absurd each
  Each-Distinct (s ∷ ss) [] each d = absurd each
  Each-Distinct (s ∷ ss) (t ∷ ts) (a, b, each) (apart, d) =
      (Each-Apart s t ss ts a each apart, Each-Distinct ss ts each d)

  pub Each-IsValid : (r after : Responder Ed) → Each r.slots after.slots → IsValid r → IsValid after
  Each-IsValid r after each (l, fits, d) = (
    Each-length r.slots after.slots each ∙ l,
    Each-Fits r.slots after.slots each fits,
    Each-Distinct r.slots after.slots each d,
  )

-- ===== src/RobotSettings/Texts.antt =====
-- lib/RobotSettings: the comparison of texts decides equality.
use bally_os.Base.{ℕ, ◌≡◌, refl, true, List, [], ◌∷◌, arith}
use bally_os.RobotSettings.Entries.{same_text}

pub same_text-eq : (a b : List ℕ) → same_text a b ≡ true → a ≡ b
unfolding same_text
same_text-eq [] [] h = refl
same_text-eq [] (y ∷ b) h = absurd cc
same_text-eq (x ∷ a) [] h = absurd cc
same_text-eq (x ∷ a) (y ∷ b) h = ground (arith, h, same_text-eq a b)

pub same_text_self : (s : List ℕ) → same_text s s ≡ true
unfolding same_text
same_text_self [] = refl
same_text_self (c ∷ s) = ground (arith, same_text_self s)

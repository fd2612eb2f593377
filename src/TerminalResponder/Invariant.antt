-- ===== src/TerminalResponder/Invariant.antt =====
-- lib/TerminalResponder: three slots, no origin in two of them, and buffers that stay within bounds.
use bally_os.Base.{
  ℕ, zero, suc, ◌≤◌, ◌≡◌, ◌≢◌, refl, sym, ◌∙◌, Bool, true, false, ◌&&◌, Option, none, some, List,
  [], ◌∷◌, length, length-modify, modify, All, if◌then◌else◌, ◌==◌, arith,
}
use bally_os.TerminalResponder.{
  Slot, Stats, Responder, max_origins, find, choose, claim, allocate, found_or, find_or_alloc,
}

module _ {Ed : Type 0} where
  -- The bounds of the buffers; a command's output may carry the note that it was shortened.
  abbrev pub Fits : Slot Ed → Type 0
  Fits s = (length s.input ≤ 1024) × (length s.async_out ≤ 1024) × (length s.pending_out ≤ 2072)

  -- Two slots in use are of different origins.
  abbrev pub Apart : Slot Ed → Slot Ed → Type 0
  Apart s t = s.used ≡ true → t.used ≡ true → s.source_id ≡ t.source_id → s.boot_id ≢ t.boot_id

  abbrev pub Distinct : List (Slot Ed) → Type 0
  Distinct [] = Unit
  Distinct (s ∷ rest) = All (Apart s) rest × Distinct rest

  abbrev pub IsValid : Responder Ed → Type 0
  IsValid r = (length r.slots ≡ max_origins) × All Fits r.slots × Distinct r.slots

  -- A change that takes a slot in use from a slot in use, of the same origin.
  abbrev pub Stays : Slot Ed → Slot Ed → Type 0
  Stays s t =
      t.used ≡ true → (s.used ≡ true) × (t.source_id ≡ s.source_id) × (t.boot_id ≡ s.boot_id)

  pub Apart-Stays : (s s1 t t1 : Slot Ed) → Stays s s1 → Stays t t1 → Apart s t → Apart s1 t1
  Apart-Stays s s1 t t1 a b apart u v e f =
      let (us, ss, bs) = a u in
      let (ut, st, bt) = b v in apart us ut (sym ss ∙ e ∙ st) (sym bs ∙ f ∙ bt)

  All-modify :
      (P : Slot Ed → Type 0) (slots : List (Slot Ed)) (i : ℕ) (f : Slot Ed → Slot Ed)
      → ((s : Slot Ed) → P s → P (f s))
      → All P slots
      → All P (modify slots i f)
  All-modify P [] i f step all = tt
  All-modify P (s ∷ rest) zero f step (here, all) = (step s here, all)
  All-modify P (s ∷ rest) (suc i) f step (here, all) = (here, All-modify P rest i f step all)

  pub All-each :
      (P Q : Slot Ed → Type 0) (slots : List (Slot Ed))
      → ((s : Slot Ed) → P s → Q s)
      → All P slots
      → All Q slots
  All-each P Q [] step all = tt
  All-each P Q (s ∷ rest) step (here, all) = (step s here, All-each P Q rest step all)

  pub Distinct-modify :
      (slots : List (Slot Ed)) (i : ℕ) (f : Slot Ed → Slot Ed)
      → ((s : Slot Ed) → Stays s (f s))
      → Distinct slots
      → Distinct (modify slots i f)
  Distinct-modify [] i f stays d = tt
  Distinct-modify (s ∷ rest) zero f stays (apart, d) = (
    All-each (Apart s) (Apart (f s)) rest
        (λ t a. Apart-Stays s (f s) t t (stays s) (λ u. (u, refl, refl)) a) apart,
    d,
  )
  Distinct-modify (s ∷ rest) (suc i) f stays (apart, d) = (
    All-modify (Apart s) rest i f
        (λ t a. Apart-Stays s s t (f t) (λ u. (u, refl, refl)) (stays t) a) apart,
    Distinct-modify rest i f stays d,
  )

  -- Not a slot of this origin.
  abbrev NotOf : ℕ → ℕ → Slot Ed → Type 0
  NotOf source boot s = s.used ≡ true → s.source_id ≡ source → s.boot_id ≢ boot

  find-NotOf :
      (slots : List (Slot Ed)) (source boot : ℕ)
      → find slots source boot ≡ none
      → All (NotOf source boot) slots
  unfolding find
  find-NotOf [] source boot h = tt
  find-NotOf (s ∷ rest) source boot h =
      go (s.used && s.source_id == source && s.boot_id == boot) refl (find rest source boot)
        (find-NotOf rest source boot) h
    where
      go :
          (b : Bool)
          → (s.used && s.source_id == source && s.boot_id == boot) ≡ b
          → (o : Option ℕ) → (o ≡ none → All (NotOf source boot) rest)
          → (if b then some 0 else elim o [ none ↦ none | some i ↦ some (suc i) ]) ≡ none
          → All (NotOf source boot) (s ∷ rest)
      go true e o later n = absurd cc
      go false e none later n = (λ u x y. ground (arith, e, u, x, y), later refl)
      go false e (some i) later n = absurd cc

  claim-Apart :
      (source boot now : ℕ) (s t : Slot Ed)
      → NotOf source boot s
      → Apart s (claim source boot now t)
  unfolding claim
  claim-Apart source boot now s t other u v e f = other u e f

  Distinct-claim :
      (slots : List (Slot Ed)) (i source boot now : ℕ)
      → All (NotOf source boot) slots
      → Distinct slots
      → Distinct (modify slots i (claim source boot now))
  unfolding claim
  Distinct-claim [] i source boot now others d = tt
  Distinct-claim (s ∷ rest) zero source boot now (other, others) (apart, d) = (
    All-each (NotOf source boot) (Apart (claim source boot now s)) rest
        (λ t n u v e f. n v (sym e) (sym f)) others,
    d,
  )
  Distinct-claim (s ∷ rest) (suc i) source boot now (other, others) (apart, d) = (
    All-modify (Apart s) rest i (claim source boot now)
        (λ t a. claim-Apart source boot now s t other) apart,
    Distinct-claim rest i source boot now others d,
  )

  Fits-claim : (source boot now : ℕ) (s : Slot Ed) → Fits s → Fits (claim source boot now s)
  unfolding claim
  Fits-claim source boot now s fits = (omega arith, omega arith, omega arith)

  allocate-IsValid :
      (r : Responder Ed) (source boot now : ℕ) (o : Option ℕ)
      → All (NotOf source boot) r.slots
      → IsValid r
      → IsValid (allocate r source boot now o).0
  unfolding allocate
  allocate-IsValid r source boot now none others valid = valid
  allocate-IsValid r source boot now (some i) others (l, fits, d) = (
    length-modify r.slots i (claim source boot now) ∙ l,
    All-modify Fits r.slots i (claim source boot now) (Fits-claim source boot now) fits,
    Distinct-claim r.slots i source boot now others d,
  )

  pub find_or_alloc-IsValid :
      (r : Responder Ed) (source boot now : ℕ)
      → IsValid r
      → IsValid (find_or_alloc r source boot now).0
  unfolding find_or_alloc found_or
  find_or_alloc-IsValid r source boot now valid =
      go (find r.slots source boot) (find-NotOf r.slots source boot)
    where
      go :
          (o : Option ℕ)
          → (o ≡ none → All (NotOf source boot) r.slots)
          → IsValid (found_or r source boot now o).0
      go (some i) others = valid
      go none others =
          allocate-IsValid r source boot now (choose 0 none r.slots) (others refl) valid

  -- A change of one slot that keeps origin and bounds.
  pub modify-IsValid :
      (r : Responder Ed) (st : Stats) (i : ℕ) (f : Slot Ed → Slot Ed)
      → ((s : Slot Ed) → Stays s (f s))
      → ((s : Slot Ed) → Fits s → Fits (f s))
      → IsValid r
      → IsValid (record r { slots = modify r.slots i f; stats = st })
  modify-IsValid r st i f stays keeps (l, fits, d) = (
    length-modify r.slots i f ∙ l,
    All-modify Fits r.slots i f keeps fits,
    Distinct-modify r.slots i f stays d,
  )

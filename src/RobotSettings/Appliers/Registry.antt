-- ===== src/RobotSettings/Appliers/Registry.antt =====
-- lib/RobotSettings: at most one callback of a module, the last that was registered.
use bally_os.Base.{
  ℕ, suc, ◌+◌, ◌<◌, ◌≤◌, ◌≡◌, refl, ap, ◌∙◌, subst, Bool, true, false, ◌||◌, not, Option, none,
  some, List, [], ◌∷◌, ◌++◌, length, arith, leb, if◌then◌else◌, Bool-cases, inl, inr, length-append,
}
use bally_os.RobotSettings.Table.{SettingsData}
use bally_os.RobotSettings.Entries.{same_text, module_exists}
use bally_os.RobotSettings.Texts.{same_text-eq, same_text_self}
use bally_os.RobotSettings.Appliers.{
  max_appliers, ApplyFn, ApplierEntry, replace, or_append, register_applier, outcome, apply_first,
  apply, apply_all,
}

module _ {W : Type 0} where
  -- How many callbacks a module has.
  abbrev pub callbacks : List (ApplierEntry W) → List ℕ → ℕ
  callbacks [] m = 0
  callbacks (a ∷ rest) m =
      if same_text a.module_name m then suc (callbacks rest m) else callbacks rest m

  -- Room for each, and at most one of a module.
  abbrev pub Registered : List (ApplierEntry W) → Type 0
  Registered appliers = (length appliers ≤ max_appliers) × ((m : List ℕ) → callbacks appliers m ≤ 1)

  first_applies :
      (a : ApplierEntry W) (rest : List (ApplierEntry W)) (m : List ℕ) (f : ApplyFn W)
      (d : SettingsData) (w : W)
      → same_text a.module_name m ≡ true
      → apply_first (record a { run = f } ∷ rest) d m w ≡ outcome (f d w)
  unfolding apply_first
  first_applies a rest m f d w e = rw e refl

  other_applies :
      (a : ApplierEntry W) (rest : List (ApplierEntry W)) (m : List ℕ) (d : SettingsData) (w : W)
      → same_text a.module_name m ≡ false
      → apply_first (a ∷ rest) d m w ≡ apply_first rest d m w
  unfolding apply_first
  other_applies a rest m d w e = rw e refl

  -- What `replace` gives: the same modules, or no entry of this one.
  abbrev Replaced :
      List (ApplierEntry W) → List ℕ → ApplyFn W → Option (List (ApplierEntry W)) → Type 0
  Replaced appliers m f none = callbacks appliers m ≡ 0
  Replaced appliers m f (some changed) =
      (length changed ≡ length appliers)
      × ((k : List ℕ) → callbacks changed k ≡ callbacks appliers k)
      × ((d : SettingsData) (w : W) → apply_first changed d m w ≡ outcome (f d w))

  replace-Replaced :
      (appliers : List (ApplierEntry W)) (m : List ℕ) (f : ApplyFn W)
      → Replaced appliers m f (replace appliers m f)
  unfolding replace
  replace-Replaced [] m f = refl
  replace-Replaced (a ∷ rest) m f =
      go (same_text a.module_name m) refl (replace rest m f) (replace-Replaced rest m f)
    where
      go :
          (b : Bool)
          → same_text a.module_name m ≡ b
          → (o : Option (List (ApplierEntry W))) → Replaced rest m f o
          → Replaced (a ∷ rest) m f (
              if b
              then some (record a { run = f } ∷ rest)
              else elim o [ none ↦ none | some changed ↦ some (a ∷ changed) ])
      go true e o r = (refl, λ k. refl, λ d w. first_applies a rest m f d w e)
      go false e none r = rw e r
      go false e (some changed) (l, same, runs) = (
        ap suc l,
        λ k. ap (λ n. if same_text a.module_name k then suc n else n) (same k),
        λ d w. other_applies a changed m d w e ∙ runs d w,
      )

  callbacks-append :
      (appliers : List (ApplierEntry W)) (a : ApplierEntry W) (k : List ℕ)
      → callbacks (appliers ++ a ∷ []) k
        ≡ callbacks appliers k + (if same_text a.module_name k then 1 else 0)
  callbacks-append [] a k = ground arith
  callbacks-append (x ∷ rest) a k = ground (arith, callbacks-append rest a k)

  -- An entry at the end is reached if there is none before.
  apply_first-append :
      (appliers : List (ApplierEntry W)) (m : List ℕ) (f : ApplyFn W) (d : SettingsData) (w : W)
      → callbacks appliers m ≡ 0
      → apply_first (appliers ++ record { module_name = m; run = f } ∷ []) d m w ≡ outcome (f d w)
  unfolding apply_first
  apply_first-append [] m f d w h = rw (same_text_self m) refl
  apply_first-append (x ∷ rest) m f d w h = elim (Bool-cases (same_text x.module_name m)) [
    | inl e ↦ absurd (ground (arith, e, h))
    | inr e ↦ rw e (apply_first-append rest m f d w (ground (arith, e, h)))
  ]

  or_append-Registered :
      (appliers : List (ApplierEntry W)) (m : List ℕ) (f : ApplyFn W)
      → Registered appliers
      → length appliers < max_appliers
      → (o : Option (List (ApplierEntry W))) → Replaced appliers m f o
      → Registered (or_append appliers m f o)
        × ((d : SettingsData) (w : W)
            → apply_first (or_append appliers m f o) d m w ≡ outcome (f d w))
  unfolding or_append
  or_append-Registered appliers m f (fits, once) room none absent = (
    (
      omega (arith, length-append appliers (record { module_name = m; run = f } ∷ [])),
      λ k. elim (Bool-cases (same_text m k)) [
        | inl e ↦
            let here : callbacks appliers k ≡ 0 =
              subst (λ j. callbacks appliers j ≡ 0) (same_text-eq m k e) absent in
            ground
              (arith, e, here, callbacks-append appliers (record { module_name = m; run = f }) k)
        | inr e ↦
            ground
              (arith, e, once k, callbacks-append appliers (record { module_name = m; run = f }) k)
      ],
    ),
    λ d w. apply_first-append appliers m f d w absent,
  )
  or_append-Registered appliers m f (fits, once) room (some changed) (l, same, runs) =
      ((omega (arith, l), λ k. omega (arith, same k, once k)), runs)

  -- What a registration leaves: the table is still in order; where it succeeded, the module exists and applying
  -- it runs this callback, and where it failed nothing changed.
  abbrev pub Registers :
      List (ApplierEntry W)
      → Option (List ℕ)
      → Option (ApplyFn W)
      → List (ApplierEntry W) × Bool
      → Type 0
  Registers appliers m f (after, done) =
      Registered after
      × ((done ≡ false) → after ≡ appliers)
      × ((done ≡ true)
          → (g : ApplyFn W) → f ≡ some g
          → (d : SettingsData) (w : W) → apply after d m w ≡ outcome (g d w))

  known_applies :
      (appliers : List (ApplierEntry W)) (m : List ℕ) (d : SettingsData) (w : W)
      → module_exists (some m) ≡ true
      → apply appliers d (some m) w ≡ apply_first appliers d m w
  unfolding apply
  known_applies appliers m d w known = rw known refl

  some_inj :
      (f g : ApplyFn W) (d : SettingsData) (w : W)
      → some f ≡ some g
      → outcome (f d w) ≡ outcome (g d w)
  some_inj f g d w e =
      ap (λ o. elim o [ none ↦ outcome (f d w) | some h ↦ outcome (h d w) ]) {x = some f}
        {y = some g} e

  -- After a call of `register_applier` on a table in order, the table has at most eight callbacks and at most
  -- one of a module; a call that fails changes nothing, and after one that succeeds `apply` runs the new callback.
  pub register_applier-Registers :
      (appliers : List (ApplierEntry W)) (m : Option (List ℕ)) (f : Option (ApplyFn W))
      → Registered appliers
      → Registers appliers m f (register_applier appliers m f)
  unfolding register_applier
  register_applier-Registers appliers none f ok = (ok, λ x. refl, λ x. absurd cc)
  register_applier-Registers appliers (some m) none ok = (ok, λ x. refl, λ x. absurd cc)
  register_applier-Registers appliers (some m) (some f) ok =
      go (module_exists (some m)) refl (leb max_appliers (length appliers)) refl
    where
      go :
          (known : Bool)
          → module_exists (some m) ≡ known
          → (full : Bool) → leb max_appliers (length appliers) ≡ full
          → Registers appliers (some m) (some f) (
              if not known || full
              then (appliers, false)
              else (or_append appliers m f (replace appliers m f), true))
      go false k full e = (ok, λ x. refl, λ x. absurd cc)
      go true k true e = (ok, λ x. refl, λ x. absurd cc)
      go true k false e =
          let (after, runs) =
            or_append-Registered appliers m f ok (ground (arith, e)) (replace appliers m f)
              (replace-Replaced appliers m f) in
          (
            after,
            λ x. absurd cc,
            λ x g same d w.
                known_applies (or_append appliers m f (replace appliers m f)) m d w k
                ∙ runs d w
                ∙ some_inj f g d w same,
          )

  -- The callbacks that `apply_all` runs: each one once, in order, each in the world the last left.
  abbrev pub worlds : List (ApplierEntry W) → SettingsData → W → W
  worlds [] d w = w
  worlds (a ∷ rest) d w = worlds rest d (a.run d w).0

  -- `apply_all` runs every callback once and counts each as a success or a failure.
  pub apply_all-length :
      (appliers : List (ApplierEntry W)) (d : SettingsData) (w : W)
      → ((apply_all appliers d w).0 ≡ worlds appliers d w)
        × ((apply_all appliers d w).1 + (apply_all appliers d w).2 ≡ length appliers)
  unfolding apply_all
  apply_all-length [] d w = (refl, refl)
  apply_all-length (a ∷ rest) d w = ground (arith, apply_all-length rest d (a.run d w).0)

-- ===== src/RobotSettings/Appliers.antt =====
-- lib/RobotSettings: the callbacks that push a module's values into the running system. A callback
-- changes a world `W`.
pub mod Registry
use bally_os.Base.{
  ℕ, zero, suc, ◌+◌, ◌<◌, ◌≤◌, ◌≡◌, refl, ap, sym, ◌∙◌, subst, Bool, true, false, ◌&&◌, ◌||◌, not,
  Option, none, some, List, [], ◌∷◌, ◌++◌, length, arith, leb, ltb, ◌==◌, if◌then◌else◌, Bool-cases,
  inl, inr, codes, length-append, ◌≢◌,
}
use bally_os.RobotSettings.Table.{SettingsData}
use bally_os.RobotSettings.Entries.{same_text, module_exists}

-- `kMaxAppliers`
abbrev pub max_appliers : ℕ
max_appliers = 8

-- `enum class ApplyResult`
pub data ApplyResult : Type 0 where
  applied failed no_applier unknown_module : ApplyResult

unfoldable pub apply_result_text : ApplyResult → List ℕ
apply_result_text applied = codes "applied"
apply_result_text failed = codes "failed"
apply_result_text no_applier = codes "requires a reboot"
apply_result_text unknown_module = codes "unknown module"

-- `std::function<bool (const SettingsData &)>`
abbrev pub ApplyFn : Type 0 → Type 0
ApplyFn W = SettingsData → W → W × Bool

-- The module is the pointer that was registered: a text that is not null.
pub record ApplierEntry (W : Type 0) : Type 0 where
  pub module_name : List ℕ
  pub run : ApplyFn W

module _ {W : Type 0} where
  -- The loop over the entries: the first of the module gets the new callback, if there is one.
  unfoldable pub replace :
      List (ApplierEntry W) → List ℕ → ApplyFn W → Option (List (ApplierEntry W))
  replace [] m f = none
  replace (a ∷ rest) m f =
      let more = replace rest m f in
      if same_text a.module_name m
      then some (record a { run = f } ∷ rest)
      else elim more [ none ↦ none | some changed ↦ some (a ∷ changed) ]

  unfoldable pub or_append :
      List (ApplierEntry W)
      → List ℕ
      → ApplyFn W
      → Option (List (ApplierEntry W))
      → List (ApplierEntry W)
  or_append appliers m f none = appliers ++ record { module_name = m; run = f } ∷ []
  or_append appliers m f (some changed) = changed

  -- A callback may be empty, a `std::function` without a target.
  unfoldable pub register_applier :
      List (ApplierEntry W) → Option (List ℕ) → Option (ApplyFn W) → List (ApplierEntry W) × Bool
  register_applier appliers none f = (appliers, false)
  register_applier appliers (some m) none = (appliers, false)
  register_applier appliers (some m) (some f) =
      if not (module_exists (some m)) || leb max_appliers (length appliers)
      then (appliers, false)
      else (or_append appliers m f (replace appliers m f), true)

  unfoldable pub outcome : W × Bool → W × ApplyResult
  outcome (w, true) = (w, applied)
  outcome (w, false) = (w, failed)

  unfoldable pub apply_first : List (ApplierEntry W) → SettingsData → List ℕ → W → W × ApplyResult
  apply_first [] d m w = (w, no_applier)
  apply_first (a ∷ rest) d m w =
      let more = apply_first rest d m w in
      if same_text a.module_name m then outcome (a.run d w) else more

  unfoldable pub apply :
      List (ApplierEntry W) → SettingsData → Option (List ℕ) → W → W × ApplyResult
  apply appliers d none w = (w, unknown_module)
  apply appliers d (some m) w =
      if module_exists (some m) then apply_first appliers d m w else (w, unknown_module)

  -- The world after every callback in turn, and how many succeeded and failed.
  unfoldable pub apply_all : List (ApplierEntry W) → SettingsData → W → W × ℕ × ℕ
  apply_all [] d w = (w, 0, 0)
  apply_all (a ∷ rest) d w =
      let (w1, done) = a.run d w in
      let (w2, ok, bad) = apply_all rest d w1 in
      if done then (w2, ok + 1, bad) else (w2, ok, bad + 1)

-- ===== src/RobotSettings/Shell.antt =====
-- lib/RobotSettings: the commands of the shell module "settings". A command gives its result code
-- and what it logs; the texts are those before the log shortens them.
use bally_os.Base.{
  ℕ, Bool, true, false, Option, none, some, List, [], ◌∷◌, ◌++◌, codes, ◌==◌, if◌then◌else◌,
}
use bally_os.RobotSettings.Numbers.{print_unsigned}
use bally_os.RobotSettings.Table.{SettingsData}
use bally_os.RobotSettings.Entries.{
  Platform, get, set_setting, list, list_all, reset_all, reset_module,
}
use bally_os.RobotSettings.File.{Card, Stored, save, load, diff}
use bally_os.RobotSettings.Appliers.{
  ApplierEntry, ApplyResult, applied, failed, no_applier, unknown_module, apply_result_text, apply,
  apply_all,
}

-- `RESULT_OK` or `RESULT_ERROR`
pub data CommandResult : Type 0 where
  result_ok result_error : CommandResult

-- `insert_log` and `insert_logf` at the levels INFO and ERRO, and `send_log_direct` at INFO.
pub data Output : Type 0 where
  info erro direct : List ℕ → Output

abbrev pub Reply : Type 0
Reply = CommandResult × Output

-- The class, the card and the rest of the world.
pub record Shell (W : Type 0) : Type 0 where
  pub stored : Stored
  pub appliers : List (ApplierEntry W)
  pub card : Card
  pub world : W

unfoldable pub report_apply : List ℕ → ApplyResult → Reply
report_apply m applied = (result_ok, info (codes "module=" ++ m ++ codes " applied=1"))
report_apply m failed = (
  result_error,
  erro (codes "module=" ++ m ++ codes " applied=0 reason=" ++ apply_result_text failed),
)
report_apply m no_applier = (
  result_error,
  erro (codes "module=" ++ m ++ codes " applied=0 reason=" ++ apply_result_text no_applier),
)
report_apply m unknown_module = (
  result_error,
  erro (codes "module=" ++ m ++ codes " applied=0 reason=" ++ apply_result_text unknown_module),
)

abbrev pub dotted : List ℕ → List ℕ → List ℕ
dotted m k = m ++ b'.' ∷ k

unfoldable pub report_diff : Option (List ℕ) → Reply
report_diff none =
    (result_error, erro (codes "cannot read settings.conf (card not mounted or file missing)"))
report_diff (some report) = (result_ok, info report)

unfoldable pub report_get : List ℕ → List ℕ → Option (List ℕ) → Reply
report_get m k none = (result_error, erro (codes "Unknown setting: " ++ dotted m k))
report_get m k (some value) = (result_ok, info (dotted m k ++ b'=' ∷ value))

unfoldable pub report_set : List ℕ → List ℕ → Bool → Reply
report_set m k false = (
  result_error,
  erro (codes "Failed to set " ++ dotted m k ++ codes ": unknown setting or invalid value"),
)
report_set m k true = (
  result_ok,
  info (
      dotted m k
      ++ codes " set in memory; run 'settings save' to persist, 'settings apply "
      ++ m
      ++ codes "' to take effect now (some modules require a reboot)"),
)

unfoldable pub report_list : List ℕ → List ℕ → Reply
report_list m [] = (result_error, erro (codes "Unknown settings module: " ++ m))
report_list m (c ∷ out) = (result_ok, info (c ∷ out))

-- After the confirmation the command asks that its own answer is not logged (`mark_direct_output`).
unfoldable pub report_save : Bool → Reply
report_save false = (result_error, erro (codes "Failed to save settings.conf: SD card not mounted"))
report_save true = (result_ok, direct (codes "Settings saved to settings.conf"))

unfoldable pub report_load : Bool → ℕ → Reply
report_load false skipped =
    (result_error, erro (codes "Failed to load settings.conf: SD card not mounted"))
report_load true skipped = (
  result_ok,
  info (
      codes "Settings reloaded from settings.conf ("
      ++ print_unsigned skipped
      ++ codes " line(s) ignored); reboot to apply"),
)

unfoldable pub report_reset : List ℕ → Bool → Reply
report_reset m false = (result_error, erro (codes "Unknown settings module: " ++ m))
report_reset m true =
    (result_ok, info (m ++ codes " reset to defaults in memory; run 'settings save' to persist"))

module _ {W : Type 0} (p : Platform) where
  unfoldable pub apply_command : Shell W → List ℕ → Shell W × Reply
  apply_command s m =
      let (w, r) = apply s.appliers s.stored.settings (some m) s.world in
      (record s { world = w }, report_apply m r)

  unfoldable pub apply_all_command : Shell W → Shell W × Reply
  apply_all_command s =
      let (w, ok, bad) = apply_all s.appliers s.stored.settings s.world in
      (
        record s { world = w },
        (
          if bad == 0 then result_ok else result_error,
          info (codes "applied=" ++ print_unsigned ok ++ codes " failed=" ++ print_unsigned bad),
        ),
      )

  unfoldable pub diff_command : Shell W → Shell W × Reply
  diff_command s = (s, report_diff (diff p s.stored.settings s.card))

  unfoldable pub get_command : Shell W → List ℕ → List ℕ → Shell W × Reply
  get_command s m k = (s, report_get m k (get p s.stored.settings (some m) (some k)))

  abbrev pub with_settings : Shell W → SettingsData → Shell W
  with_settings s d = record s { stored = record s.stored { settings = d } }

  unfoldable pub set_command : Shell W → List ℕ → List ℕ → List ℕ → Shell W × Reply
  set_command s m k value =
      let (d, done) = set_setting p s.stored.settings (some m) (some k) (some value) in
      (with_settings s d, report_set m k done)

  unfoldable pub list_command : Shell W → List ℕ → Shell W × Reply
  list_command s m = (s, report_list m (list p s.stored.settings (some m)))

  unfoldable pub list_all_command : Shell W → Shell W × Reply
  list_all_command s = (s, (result_ok, info (list_all p s.stored.settings)))

  unfoldable pub revision_command : Shell W → Shell W × Reply
  revision_command s =
      (s, (result_ok, info (codes "revision=" ++ print_unsigned s.stored.save_revision)))

  unfoldable pub save_command : (W → W) → Shell W → Shell W × Reply
  save_command mark_direct_output s =
      let (stored, card, done) = save p s.stored s.card in
      (
        record s {
          stored = stored;
          card = card;
          world = if done then mark_direct_output s.world else s.world;
        },
        report_save done,
      )

  unfoldable pub load_command : Shell W → Shell W × Reply
  load_command s =
      let (stored, card, done, skipped) = load p s.stored s.card in
      (record s { stored = stored; card = card }, report_load done skipped)

  unfoldable pub reset_command : Shell W → List ℕ → Shell W × Reply
  reset_command s m =
      let (d, done) = reset_module s.stored.settings (some m) in
      (with_settings s d, report_reset m done)

  unfoldable pub reset_all_command : Shell W → Shell W × Reply
  reset_all_command s = (
    with_settings s (reset_all s.stored.settings),
    (
      result_ok,
      info (codes "All settings reset to defaults in memory; run 'settings save' to persist"),
    ),
  )

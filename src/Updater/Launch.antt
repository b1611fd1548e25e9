-- ===== src/Updater/Launch.antt =====
-- `Start` of internal/updater/service.go.
use nusantara_panel.Base.{
  ltb, to_lower, contains, not, List, ◌∷◌, ◌++◌, [], none, some, if◌then◌else◌, ◌&&◌, ℤ, pos,
  negsuc, ℕ, Text, codes, Result, ok, err, Unicode, trim_space,
}
use nusantara_panel.Store.{Time}
use nusantara_panel.Updater.{
  cooling, validate_config, already_running, disabled, unit_service_name, failed, summarize_status,
  shell_quote, cooldown_wait, Config, Service, Error, Status, StartResult,
}
use nusantara_panel.Updater.System.{Host, Ran, status}

unfoldable pub update_script : Config → Text
unfolding shell_quote
update_script c =
    codes "set -euo pipefail; curl -fsSL "
    ++ shell_quote c.script_url
    ++ codes " | /bin/bash -s -- --repo "
    ++ shell_quote c.repo_url
    ++ codes " --branch "
    ++ shell_quote c.branch

abbrev pub launch_command : Config → List Text
launch_command c =
    codes "systemd-run"
    ∷ codes "--unit"
    ∷ c.unit_name
    ∷ codes "--property=Type=oneshot"
    ∷ codes "--property=RemainAfterExit=yes"
    ∷ codes "/bin/bash"
    ∷ codes "-lc"
    ∷ update_script c
    ∷ []

-- The readings of the clock in one call.
pub record Clock : Type 0 where
  pub checked_at : Time
  pub now : Time
  pub started_at : Time

abbrev pub positive : ℤ → ℕ
positive (pos n) = n
positive (negsuc n) = 0

module _ ⦃u : Unicode⦄ {F : Type 0} (host : Host F) where
  abbrev detailed : Text → Text → Result Error Status × F → Result Error StartResult × F
  detailed cause raw (ok st, f) = (
    err (
        failed (
          codes "start updater unit: "
          ++ cause
          ++ codes ": "
          ++ raw
          ++ codes "; updater_status="
          ++ summarize_status st)),
    f,
  )
  detailed cause raw (err e, f) =
      (err (failed (codes "start updater unit: " ++ cause ++ codes ": " ++ raw)), f)

  abbrev started : Config → Clock → StartResult
  started c clock = record {
    unit = unit_service_name c;
    repo_url = c.repo_url;
    branch = c.branch;
    script_url = c.script_url;
    started_at = clock.started_at;
  }

  abbrev relaunched : Service → Clock → Ran × F → Result Error StartResult × F
  relaunched s clock (ran, f) = elim ran.failure [
    | none ↦ (ok (started s.cfg clock), f)
    | some cause ↦ detailed cause (trim_space ran.output) (status host s clock.checked_at f)
  ]

  -- Whatever its two commands answer
  unfoldable pub cleanup_unit : Config → F → F
  unfolding unit_service_name
  cleanup_unit c f =
      let stopped = (host.run (codes "systemctl" ∷ codes "stop" ∷ unit_service_name c ∷ []) f).1 in
      (host.run (codes "systemctl" ∷ codes "reset-failed" ∷ unit_service_name c ∷ []) stopped).1

  abbrev launched : Service → Clock → Ran × F → Result Error StartResult × F
  launched s clock (ran, f) = elim ran.failure [
    | none ↦ (ok (started s.cfg clock), f)
    | some cause ↦
        if contains (to_lower (trim_space ran.output)) (codes "already exists")
        then relaunched s clock (host.run (launch_command s.cfg) (cleanup_unit s.cfg f))
        else detailed cause (trim_space ran.output) (status host s clock.checked_at f)
  ]

  unfoldable pub launch : Service → Clock → F → Result Error StartResult × F
  unfolding status update_script cleanup_unit summarize_status
  launch s clock f = launched s clock (host.run (launch_command s.cfg) f)

  abbrev launch_unless : Service → Clock → Result Error Status × F → Result Error StartResult × F
  launch_unless s clock (err e, f) = launch s clock f
  launch_unless s clock (ok st, f) =
      let wait = cooldown_wait host.parse_time (positive s.cfg.cooldown) st clock.now in
      if st.exists && st.running
      then (err already_running, f)
      else if ltb 0 (positive s.cfg.cooldown) && ltb 0 wait
      then (err (cooling wait), f)
      else launch s clock f

  -- `s.Start`. A status that is not read does not keep the update from starting.
  unfoldable pub start : Service → Clock → F → Result Error StartResult × F
  start s clock f =
      if not s.enabled then (err disabled, f) else elim (validate_config host.is_uri s.cfg) [
        | err e ↦ (err e, f)
        | ok _ ↦ launch_unless s clock (status host s clock.checked_at f)
      ]

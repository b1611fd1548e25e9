-- ===== src/Http/Operations.antt =====
-- The handlers of the certificates, the monitor, the version of the panel and its updater.
use nusantara_panel.Base.{Text, codes, [], ◌∷◌, ◌++◌, Option, none, some, Result, ok, err, Unicode}
use nusantara_panel.Store.{decimal}
use nusantara_panel.Certificates
use nusantara_panel.Certificates.{issue, renew}
use nusantara_panel.Monitor.{list}
use nusantara_panel.Updater
use nusantara_panel.Updater.{StartResult, CheckResult, Status}
use nusantara_panel.Updater.System.{status}
use nusantara_panel.Updater.Launch.{start}
use nusantara_panel.Updater.Check.{check}
use nusantara_panel.Http.{
  Request, Response, World, Env, Api, Body, IssueSslRequest, fields, text, integer, moment,
  services, no_services, update_started, update_checked, update_status, error_and_status,
  decode_json, write_error, write_json, audited,
}
use nusantara_panel.Http.Replies.{invalid_body}
use nusantara_panel.Http.Accounts.{Principal, status_ok}

abbrev no_certificates : Response
no_certificates = write_error 500 (codes "ssl service is not configured")

abbrev no_updater : Response
no_updater = write_error 500 (codes "panel updater is not configured")

abbrev certificate_message : Certificates.Error → Text
certificate_message Certificates.invalid_domain = codes "invalid domain"
certificate_message Certificates.invalid_email = codes "invalid email"
certificate_message (Certificates.failed cause) = cause

abbrev issue_error : Certificates.Error → Response
issue_error (Certificates.failed cause) = write_error 500 cause
issue_error e = write_error 400 (certificate_message e)

abbrev update_message : Updater.Error → Text
update_message Updater.disabled = codes "panel updater is disabled"
update_message Updater.already_running = codes "panel updater is already running"
update_message (Updater.cooling wait) =
    codes "panel updater cooldown is active: wait " ++ decimal wait ++ codes "s"
update_message (Updater.invalid_config cause) = codes "invalid panel updater config: " ++ cause
update_message (Updater.failed cause) = cause

-- The response to a start that was refused, with the status of the unit if it can be told.
abbrev merge_error_payload : Text → Option Status → Body
merge_error_payload message extra = error_and_status message extra

unfoldable pub start_error : Updater.Error → Option Status → Response
start_error e extra = elim e [
  | Updater.already_running ↦
      write_json 409 (merge_error_payload (codes "panel update is already running") extra)
  | Updater.cooling wait ↦
      write_json 429 (merge_error_payload (update_message (Updater.cooling wait)) extra)
  | Updater.disabled ↦
      write_json 400 (merge_error_payload (codes "panel updater is disabled") extra)
  | Updater.invalid_config cause ↦
      write_json 500 (merge_error_payload (update_message (Updater.invalid_config cause)) extra)
  | Updater.failed cause ↦ write_json 500 (merge_error_payload cause extra)
]

-- The response to a check or a look at the status that fails.
abbrev update_error : Updater.Error → Response
update_error Updater.disabled = write_error 400 (codes "panel updater is disabled")
update_error e = write_error 500 (update_message e)

module _ ⦃u : Unicode⦄ {F G : Type 0} (a : Api F G) (env : Env) where
  abbrev certificate_issued :
      Principal
      → IssueSslRequest
      → World F G
      → Result Certificates.Error (Unit {0}) × G
      → Response × World F G
  certificate_issued p req w (err e, g) = (issue_error e, record w { system = g })
  certificate_issued p req w (ok _, g) = (
    write_json 200
        (fields ((codes "status", text (codes "ok")) ∷ (codes "domain", text req.domain) ∷ [])),
    audited a env p.user.id (codes "ssl.issue") (codes "domain") req.domain
        (some ((codes "email", text req.email) ∷ [])) (record w { system = g }),
  )

  unfoldable pub handle_issue_ssl : Principal → Request → World F G → Response × World F G
  unfolding audited
  handle_issue_ssl p r w = elim a.ssl [
    | none ↦ (no_certificates, w)
    | some s ↦ elim (decode_json a.decoders.issue_ssl r) [
      | none ↦ (invalid_body, w)
      | some req ↦ certificate_issued p req w (issue a.certbot s req.domain req.email w.system)
    ]
  ]

  abbrev certificates_renewed :
      Principal → World F G → Result Certificates.Error (Unit {0}) × G → Response × World F G
  certificates_renewed p w (err e, g) =
      (write_error 500 (certificate_message e), record w { system = g })
  certificates_renewed p w (ok _, g) = (
    write_json 200 status_ok,
    audited a env p.user.id (codes "ssl.renew") (codes "system") (codes "certbot") none
        (record w { system = g }),
  )

  unfoldable pub handle_renew_ssl : Principal → World F G → Response × World F G
  unfolding audited
  handle_renew_ssl p w = elim a.ssl [
    | none ↦ (no_certificates, w)
    | some s ↦ certificates_renewed p w (renew a.certbot s w.system)
  ]

  unfoldable pub handle_monitor_host : World F G → Response × World F G
  handle_monitor_host w = (
    write_json 200 (
        fields (
          (codes "status", text (codes "ok"))
          ∷ (codes "hostname", text a.build.hostname)
          ∷ (codes "goos", text a.build.goos)
          ∷ (codes "goarch", text a.build.goarch)
          ∷ (codes "cpu_threads", integer a.build.num_cpu)
          ∷ (codes "timestamp", moment env.monitor_now)
          ∷ [])),
    w,
  )

  unfoldable pub handle_monitor_services : World F G → Response × World F G
  handle_monitor_services w = elim a.services_monitor [
    | none ↦ (write_json 200 (no_services (codes "services monitor is not configured")), w)
    | some monitor ↦
        let (items, g) = list a.build.goos a.systemctl monitor env.monitor_now w.system in
        (write_json 200 (services items), record w { system = g })
  ]

  unfoldable pub handle_panel_version : World F G → Response × World F G
  handle_panel_version w = (
    write_json 200 (
        fields (
          (codes "version", text a.build.version)
          ∷ (codes "commit", text a.build.commit)
          ∷ (codes "build_time", text a.build.build_time)
          ∷ (codes "go_version", text a.build.go_version)
          ∷ (codes "timestamp", moment env.monitor_now)
          ∷ [])),
    w,
  )

  abbrev told_status : Result Updater.Error Status → Option Status
  told_status (ok st) = some st
  told_status (err e) = none

  abbrev update_begun :
      Updater.Service
      → Principal
      → World F G
      → Result Updater.Error StartResult × G
      → Response × World F G
  update_begun s p w (err e, g) =
      let (st, next) = status a.updates s env.status_now g in
      (start_error e (told_status st), record w { system = next })
  update_begun s p w (ok res, g) = (
    write_json 202 (update_started res),
    audited a env p.user.id (codes "panel.update.start") (codes "system") res.unit
        (some (
          (codes "repo_url", text res.repo_url)
          ∷ (codes "branch", text res.branch)
          ∷ (codes "script_url", text res.script_url)
          ∷ []))
        (record w { system = g }),
  )

  unfoldable pub handle_start_panel_update : Principal → World F G → Response × World F G
  unfolding audited start_error
  handle_start_panel_update p w = elim a.updater [
    | none ↦ (no_updater, w)
    | some s ↦ update_begun s p w (start a.updates s env.update w.system)
  ]

  abbrev compared : World F G → Result Updater.Error CheckResult × G → Response × World F G
  compared w (err e, g) = (update_error e, record w { system = g })
  compared w (ok res, g) = (write_json 200 (update_checked res), record w { system = g })

  unfoldable pub handle_panel_update_check : World F G → Response × World F G
  handle_panel_update_check w = elim a.updater [
    | none ↦ (no_updater, w)
    | some s ↦
        compared w (check a.updates s env.update.checked_at a.build.version a.build.commit w.system)
  ]

  abbrev looked_at : World F G → Result Updater.Error Status × G → Response × World F G
  looked_at w (err e, g) = (update_error e, record w { system = g })
  looked_at w (ok st, g) = (write_json 200 (update_status st), record w { system = g })

  unfoldable pub handle_panel_update_status : World F G → Response × World F G
  handle_panel_update_status w = elim a.updater [
    | none ↦ (no_updater, w)
    | some s ↦ looked_at w (status a.updates s env.status_now w.system)
  ]

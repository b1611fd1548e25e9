-- ===== src/Jobs/Kept.antt =====
-- What no writer of the store undoes: the state stays valid, and a stored job stays stored.
use nusantara_panel.Base.{
  Text, ◌≡◌, true, [], some, none, ok, err, Result, arith, Unicode, is_some, Option-cases,
  Result-cases, Bool-cases, Option, text_eq, inl, inr,
}
use nusantara_panel.Base.Table.{lookup, lookup-insert}
use nusantara_panel.Store.FileDb.Snapshot.{Codec, Outcome, Repository}
use nusantara_panel.Store.FileDb.Methods.{
  migrate, create_user, update_user_password, create_session, delete_session_by_token_hash,
  create_site, update_site_status, delete_site, create_job, update_job, create_audit_log, close,
}
use nusantara_panel.Store.FileDb.Calls.{
  Call, migrates, closes, creates_user, updates_password, creates_session, deletes_session,
  creates_site, sets_site_status, deletes_site, creates_job, updates_job, records_audit, apply,
}
use nusantara_panel.Store.FileDb.Invariant.{save-snap, IsValid}
use nusantara_panel.Store.FileDb.Invariant.Steps.{apply-IsValid}
use nusantara_panel.Store
use nusantara_panel.Store.{
  Job, Time, job_status_running, job_type_provision_site, job_type_deprovision_site,
}
use nusantara_panel.Store.FileDb.Methods.{get_job_by_id}
use nusantara_panel.Jobs.Worker.{wrapped-snd}
use nusantara_panel.Jobs.{
  named_site, run_deprovision_site, finish, run_if_started, run_by_type, run_provision_site, Config,
  Env, start, handle_job,
}

abbrev pub IsStored : Repository → Text → Type 0
IsStored r id = is_some (lookup id r.snap.jobs) ≡ true

module _ ⦃u : Unicode⦄ where
  pub apply-IsStored :
      (codec : Codec) (o : Outcome) (call : Call) (r : Repository) (id : Text)
      → IsStored r id
      → IsStored (apply codec o call r).1 id
  unfolding apply migrate create_user update_user_password create_session
      delete_session_by_token_hash create_site update_site_status delete_site create_job update_job
      create_audit_log close
  apply-IsStored codec o migrates r id h = grind (arith, save-snap)
  apply-IsStored codec o closes r id h = grind (arith, save-snap)
  apply-IsStored codec o (creates_user user) r id h = grind (arith, save-snap)
  apply-IsStored codec o (updates_password i hash at) r id h = grind (arith, save-snap)
  apply-IsStored codec o (creates_session session) r id h = grind (arith, save-snap)
  apply-IsStored codec o (deletes_session hash) r id h = grind (arith, save-snap)
  apply-IsStored codec o (creates_site site) r id h = grind (arith, save-snap)
  apply-IsStored codec o (sets_site_status now i status) r id h = grind (arith, save-snap)
  apply-IsStored codec o (deletes_site i) r id h = grind (arith, save-snap)
  apply-IsStored codec o (creates_job job) r id h = grind (arith, save-snap, lookup-insert)
  apply-IsStored codec o (updates_job i status error start end) r id h =
      grind (arith, save-snap, lookup-insert)
  apply-IsStored codec o (records_audit entry) r id h = grind (arith, save-snap)

  -- A stretch of work that keeps the state valid and every stored job stored.
  abbrev pub Kept : Repository → Repository → Type 0
  Kept r r' = (IsValid r.snap → IsValid r'.snap) × ((id : Text) → IsStored r id → IsStored r' id)

  Kept-then : (r r' r'' : Repository) → Kept r r' → Kept r' r'' → Kept r r''
  Kept-then r r' r'' k l = (λ v. l.0 (k.0 v), λ id h. l.1 id (k.1 id h))

  update_job-Kept :
      (codec : Codec) (o : Outcome) (id status error : Text) (start end : Option Time)
      (r : Repository)
      → Kept r (update_job codec o id status error start end r).1
  unfolding apply
  update_job-Kept codec o id status error start end r =
      let call = updates_job id status error start end in
      (λ v. apply-IsValid codec o r v call tt, apply-IsStored codec o call r)

  update_site_status-Kept :
      (codec : Codec) (o : Outcome) (now : Time) (id status : Text) (r : Repository)
      → Kept r (update_site_status codec o now id status r).1
  unfolding apply
  update_site_status-Kept codec o now id status r =
      let call = sets_site_status now id status in
      (λ v. apply-IsValid codec o r v call tt, apply-IsStored codec o call r)

  delete_site-Kept :
      (codec : Codec) (o : Outcome) (id : Text) (r : Repository)
      → Kept r (delete_site codec o id r).1
  unfolding apply
  delete_site-Kept codec o id r = (
    λ v. apply-IsValid codec o r v (deletes_site id) tt,
    apply-IsStored codec o (deletes_site id) r,
  )

  run_provision_site-Kept :
      (c : Config) (env : Env) (job : Job) (r : Repository)
      → Kept r (run_provision_site c env job r).1
  unfolding run_provision_site
  run_provision_site-Kept c env job r = elim (Option-cases c.provisioner) [
    | inl e ↦ rw (e, run_provision_site) (λ v. v, λ id h. h)
    | inr (p, e) ↦ elim (Result-cases (named_site c job r)) [
      | inr (cause, f) ↦ rw (e, f, run_provision_site) (λ v. v, λ id h. h)
      | inl (site, f) ↦ elim (Option-cases (p.provision_site site)) [
        | inl g ↦
            rw (e, f, g, run_provision_site, wrapped-snd)
              (update_site_status-Kept c.codec env.site_save env.updated_at site.id _ r)
        | inr (cause, g) ↦
            rw (e, f, g, run_provision_site)
              (update_site_status-Kept c.codec env.site_save env.updated_at site.id _ r)
      ]
    ]
  ]

  run_deprovision_site-Kept :
      (c : Config) (env : Env) (job : Job) (r : Repository)
      → Kept r (run_deprovision_site c env job r).1
  unfolding run_deprovision_site
  run_deprovision_site-Kept c env job r = elim (Option-cases c.provisioner) [
    | inl e ↦ rw (e, run_deprovision_site) (λ v. v, λ id h. h)
    | inr (p, e) ↦ elim (Result-cases (named_site c job r)) [
      | inr (cause, f) ↦ rw (e, f, run_deprovision_site) (λ v. v, λ id h. h)
      | inl (site, f) ↦ elim (Option-cases (p.deprovision_site site)) [
        | inl g ↦
            rw (e, f, g, run_deprovision_site, wrapped-snd)
              (delete_site-Kept c.codec env.site_save site.id r)
        | inr (cause, g) ↦
            rw (e, f, g, run_deprovision_site)
              (update_site_status-Kept c.codec env.site_save env.updated_at site.id _ r)
      ]
    ]
  ]

  run_by_type-Kept :
      (c : Config) (env : Env) (job : Job) (r : Repository) → Kept r (run_by_type c env job r).1
  unfolding run_by_type
  run_by_type-Kept c env job r = elim (Bool-cases (text_eq job.type job_type_provision_site)) [
    | inl e ↦ rw e (run_provision_site-Kept c env job r)
    | inr e ↦ elim (Bool-cases (text_eq job.type job_type_deprovision_site)) [
      | inl f ↦ rw (e, f) (run_deprovision_site-Kept c env job r)
      | inr f ↦ rw (e, f) (λ v. v, λ id h. h)
    ]
  ]

  finish-Kept :
      (c : Config) (env : Env) (job : Job) (cause : Option Text) (r : Repository)
      → Kept r (finish c env job (cause, r))
  unfolding finish
  finish-Kept c env job none r = update_job-Kept c.codec env.end_save job.id _ _ _ _ r
  finish-Kept c env job (some why) r = update_job-Kept c.codec env.end_save job.id _ _ _ _ r

  run_if_started-Kept :
      (c : Config) (env : Env) (job : Job) (p : Result Store.Error (Unit {0}) × Repository)
      → Kept p.1 (run_if_started c env job p)
  run_if_started-Kept c env job (err e, r) = (λ v. v, λ id h. h)
  run_if_started-Kept c env job (ok _, r) =
      let ran = run_by_type c env job r in
      Kept-then r ran.1 (finish c env job ran) (run_by_type-Kept c env job r)
        (finish-Kept c env job ran.0 ran.1)

  pub handle_job-Kept :
      (c : Config) (env : Env) (id : Text) (r : Repository) → Kept r (handle_job c env id r)
  unfolding handle_job
  handle_job-Kept c env id r = elim (Result-cases (get_job_by_id id r)) [
    | inr (e, f) ↦ rw (f, handle_job) (λ v. v, λ id h. h)
    | inl (job, f) ↦
        let marked =
          update_job c.codec env.start_save job.id job_status_running [] (some env.started_at) none
            r in
        rw (f, handle_job)
          (Kept-then r marked.1 (run_if_started c env job marked)
            (update_job-Kept c.codec env.start_save job.id _ _ _ _ r)
            (run_if_started-Kept c env job marked))
  ]

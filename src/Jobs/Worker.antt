-- ===== src/Jobs/Worker.antt =====
-- What the worker does to the stored jobs and sites while it handles one job.
use nusantara_panel.Base.{
  ◌∙◌, ◌≢◌, [], ◌≡◌, refl, ap, Text, Option, none, some, Option-cases, Result-cases, inl, inr,
  Result, ok, err, arith, Unicode,
}
use nusantara_panel.Store
use nusantara_panel.Store.{Job, Site, Time}
use nusantara_panel.Store.FileDb.Snapshot.{Codec, Outcome, Repository}
use nusantara_panel.Store.FileDb.Methods.{
  get_job_by_id, update_job, update_site_status, delete_site,
}
use nusantara_panel.Store.FileDb.Invariant.{save-snap}
use nusantara_panel.Jobs.{
  job_status_failed, finish, get_job_by_id, job_status_success, job_status_running, Config, Env,
  wrapped, named_site, run_provision_site, run_deprovision_site, run_by_type, handle_job,
}
use nusantara_panel.Base.Table.{lookup, insert, lookup-insert_self, lookup-insert_ne}

update_job-snap :
    (codec : Codec) (o : Outcome) (id status error : Text) (start end : Option Time) (job : Job)
    (r : Repository)
    → lookup id r.snap.jobs ≡ some job
    → (update_job codec o id status error start end r).1.snap ≡ record r.snap {
      jobs =
          insert id
            (record job { status = status; error = error; started_at = start; finished_at = end })
            r.snap.jobs;
    }
unfolding update_job
update_job-snap codec o id status error start end job r e =
    rw (e, update_job) (save-snap codec o (record r { snap = _ }))

pub update_site_status-snap :
    (codec : Codec) (o : Outcome) (now : Time) (id status : Text) (site : Site) (r : Repository)
    → lookup id r.snap.sites ≡ some site
    → (update_site_status codec o now id status r).1.snap ≡ record r.snap {
      sites = insert id (record site { status = status; updated_at = now }) r.snap.sites;
    }
unfolding update_site_status
update_site_status-snap codec o now id status site r e =
    rw (e, update_site_status) (save-snap codec o (record r { snap = _ }))

update_site_status-jobs :
    (codec : Codec) (o : Outcome) (now : Time) (id status : Text) (r : Repository)
    → (update_site_status codec o now id status r).1.snap.jobs ≡ r.snap.jobs
unfolding update_site_status
update_site_status-jobs codec o now id status r = elim (Option-cases (lookup id r.snap.sites)) [
  | inl e ↦ rw (e, update_site_status) refl
  | inr (site, e) ↦ ap (λ s. s.jobs) (update_site_status-snap codec o now id status site r e)
]

pub update_job-sites :
    (codec : Codec) (o : Outcome) (id status error : Text) (start end : Option Time)
    (r : Repository)
    → ((update_job codec o id status error start end r).1.snap.sites ≡ r.snap.sites)
      × ((update_job codec o id status error start end r).1.snap.domain_index ≡ r.snap.domain_index)
unfolding update_job
update_job-sites codec o id status error start end r = elim (Option-cases (lookup id r.snap.jobs)) [
  | inl e ↦ rw (e, update_job) (refl, refl)
  | inr (job, e) ↦
      let now = update_job-snap codec o id status error start end job r e in
      (ap (λ s. s.sites) now, ap (λ s. s.domain_index) now)
]

get_job_by_id_found :
    (id : Text) (job : Job) (r : Repository)
    → lookup id r.snap.jobs ≡ some job
    → get_job_by_id id r ≡ ok job
unfolding get_job_by_id
get_job_by_id_found id job r e = ground arith

module _ ⦃u : Unicode⦄ where
  delete_site-jobs :
      (codec : Codec) (o : Outcome) (id : Text) (r : Repository)
      → (delete_site codec o id r).1.snap.jobs ≡ r.snap.jobs
  unfolding delete_site
  delete_site-jobs codec o id r = elim (Option-cases (lookup id r.snap.sites)) [
    | inl e ↦ rw (e, delete_site) refl
    | inr (site, e) ↦
        rw (e, delete_site) (ap (λ s. s.jobs) (save-snap codec o (record r { snap = _ })))
  ]

  pub wrapped-snd :
      (context : Text) (p : Result Store.Error (Unit {0}) × Repository)
      → (wrapped context p).1 ≡ p.1
  wrapped-snd context (ok _, r) = refl
  wrapped-snd context (err e, r) = refl

  run_provision_site-jobs :
      (c : Config) (env : Env) (job : Job) (r : Repository)
      → (run_provision_site c env job r).1.snap.jobs ≡ r.snap.jobs
  unfolding run_provision_site
  run_provision_site-jobs c env job r = elim (Option-cases c.provisioner) [
    | inl e ↦ rw (e, run_provision_site) refl
    | inr (p, e) ↦ elim (Result-cases (named_site c job r)) [
      | inr (cause, f) ↦ rw (e, f, run_provision_site) refl
      | inl (site, f) ↦ elim (Option-cases (p.provision_site site)) [
        | inl g ↦
            rw (e, f, g, run_provision_site, wrapped-snd)
              (update_site_status-jobs c.codec env.site_save env.updated_at site.id _ r)
        | inr (cause, g) ↦
            rw (e, f, g, run_provision_site)
              (update_site_status-jobs c.codec env.site_save env.updated_at site.id _ r)
      ]
    ]
  ]

  run_deprovision_site-jobs :
      (c : Config) (env : Env) (job : Job) (r : Repository)
      → (run_deprovision_site c env job r).1.snap.jobs ≡ r.snap.jobs
  unfolding run_deprovision_site
  run_deprovision_site-jobs c env job r = elim (Option-cases c.provisioner) [
    | inl e ↦ rw (e, run_deprovision_site) refl
    | inr (p, e) ↦ elim (Result-cases (named_site c job r)) [
      | inr (cause, f) ↦ rw (e, f, run_deprovision_site) refl
      | inl (site, f) ↦ elim (Option-cases (p.deprovision_site site)) [
        | inl g ↦
            rw (e, f, g, run_deprovision_site, wrapped-snd)
              (delete_site-jobs c.codec env.site_save site.id r)
        | inr (cause, g) ↦
            rw (e, f, g, run_deprovision_site)
              (update_site_status-jobs c.codec env.site_save env.updated_at site.id _ r)
      ]
    ]
  ]

  run_by_type-jobs :
      (c : Config) (env : Env) (job : Job) (r : Repository)
      → (run_by_type c env job r).1.snap.jobs ≡ r.snap.jobs
  unfolding run_by_type
  run_by_type-jobs c env job r =
      ground (arith, run_provision_site-jobs c env job r, run_deprovision_site-jobs c env job r)

  -- A job as the worker leaves it, by the error that its run ended with.
  abbrev pub settled : Env → Job → Option Text → Job
  settled env job none = record job {
    status = job_status_success;
    error = [];
    started_at = some env.started_at;
    finished_at = some env.finished_at;
  }
  settled env job (some cause) = record job {
    status = job_status_failed;
    error = cause;
    started_at = some env.started_at;
    finished_at = some env.finished_at;
  }

  abbrev pub running : Env → Job → Job
  running env job = record job {
    status = job_status_running;
    error = [];
    started_at = some env.started_at;
    finished_at = none;
  }

  -- The mark that the worker sets before it runs a job.
  abbrev pub mark : Config → Env → Text → Repository → Result Store.Error (Unit {0}) × Repository
  mark c env id r =
      update_job c.codec env.start_save id job_status_running [] (some env.started_at) none r

  -- What becomes of a job: it runs only if the mark was saved.
  abbrev pub left : Env → Job → Result Store.Error (Unit {0}) → Option Text → Job
  left env job (err e) cause = running env job
  left env job (ok _) cause = settled env job cause

  finish-snap :
      (c : Config) (env : Env) (job : Job) (cause : Option Text) (r : Repository)
      → lookup job.id r.snap.jobs ≡ some (running env job)
      → (finish c env job (cause, r)).snap
        ≡ record r.snap { jobs = insert job.id (settled env job cause) r.snap.jobs }
  unfolding finish
  finish-snap c env job none r e =
      update_job-snap c.codec env.end_save job.id _ _ _ _ (running env job) r e
  finish-snap c env job (some cause) r e =
      update_job-snap c.codec env.end_save job.id _ _ _ _ (running env job) r e

  mark-snap :
      (c : Config) (env : Env) (job : Job) (r : Repository)
      → lookup job.id r.snap.jobs ≡ some job
      → (mark c env job.id r).1.snap
        ≡ record r.snap { jobs = insert job.id (running env job) r.snap.jobs }
  mark-snap c env job r e = update_job-snap c.codec env.start_save job.id _ _ _ _ job r e

  pub handle_job_marked :
      (c : Config) (env : Env) (job : Job) (r : Repository)
      → lookup job.id r.snap.jobs ≡ some job
      → (mark c env job.id r).0 ≡ ok tt
      → handle_job c env job.id r ≡ finish c env job (run_by_type c env job (mark c env job.id r).1)
  unfolding handle_job
  handle_job_marked c env job r e h = ground (arith, get_job_by_id_found job.id job r e)

  handle_job_unmarked :
      (c : Config) (env : Env) (job : Job) (cause : Store.Error) (r : Repository)
      → lookup job.id r.snap.jobs ≡ some job
      → (mark c env job.id r).0 ≡ err cause
      → handle_job c env job.id r ≡ (mark c env job.id r).1
  unfolding handle_job
  handle_job_unmarked c env job cause r e h = ground (arith, get_job_by_id_found job.id job r e)

  -- The stored job that the worker handles is left settled by the error of its run if the mark was
  -- saved, whether or not the later saves succeed, and is left running for good if the save of the
  -- mark failed; no other job changes.
  pub handle_job-jobs :
      (c : Config) (env : Env) (job : Job) (other : Text) (r : Repository)
      → lookup job.id r.snap.jobs ≡ some job
      → (lookup job.id (handle_job c env job.id r).snap.jobs
          ≡ some (
              left env job
                (mark c env job.id r).0
                (run_by_type c env job (mark c env job.id r).1).0))
        × (job.id ≢ other
            → lookup other (handle_job c env job.id r).snap.jobs ≡ lookup other r.snap.jobs)
  handle_job-jobs c env job other r e =
      let at : Repository = (mark c env job.id r).1 in
      let marked = mark-snap c env job r e in
      let kept : at.snap.jobs ≡ insert job.id (running env job) r.snap.jobs =
        ap (λ s. s.jobs) marked in
      elim (Result-cases (mark c env job.id r).0) [
        | inr (cause, f) ↦
            rw (handle_job_unmarked c env job cause r e f, f, kept)
              (
                lookup-insert_self job.id (running env job) r.snap.jobs,
                lookup-insert_ne job.id other (running env job) r.snap.jobs,
              )
        | inl (done, f) ↦
            let jobs = insert job.id (running env job) r.snap.jobs in
            let ran = run_by_type c env job at in
            let same : ran.1.snap.jobs ≡ jobs = run_by_type-jobs c env job at ∙ kept in
            let end : (finish c env job ran).snap.jobs
                ≡ insert job.id (settled env job ran.0) jobs =
              ap (λ s. s.jobs)
                (finish-snap c env job ran.0 ran.1
                  (rw same (lookup-insert_self job.id (running env job) r.snap.jobs)))
              ∙ ap (λ m. insert job.id (settled env job ran.0) m) same in
            rw (handle_job_marked c env job r e f, f, end)
              (
                lookup-insert_self job.id (settled env job ran.0) jobs,
                λ ne.
                    lookup-insert_ne job.id other (settled env job ran.0) jobs ne
                    ∙ lookup-insert_ne job.id other (running env job) r.snap.jobs ne,
              )
      ]

-- ===== src/Jobs/Sites.antt =====
-- What becomes of a site whose job the worker handles.
use nusantara_panel.Base.{
  text_eq_self, text_eq, ◌≡◌, refl, ◌≢◌, Text, codes, [], Option, none, some, Option-cases, inl,
  inr, ok, arith, Unicode, text_eq-false, to_lower,
}
use nusantara_panel.Base.Table.{Table, lookup, lookup-insert_self, lookup-delete_self}
use nusantara_panel.Store.{
  Job, Site, site_status_active, site_status_failed, job_type_provision_site,
  job_type_deprovision_site,
}
use nusantara_panel.Store.FileDb.Snapshot.{Repository}
use nusantara_panel.Store.FileDb.Accounts.{get_site_by_id_found, delete_site-snap}
use nusantara_panel.Jobs.{
  job_status_running, site_id_of, Config, Env, SiteProvisioner, named_site, run_provision_site,
  run_deprovision_site, run_by_type, handle_job, finish,
}
use nusantara_panel.Jobs.Worker.{
  mark, handle_job_marked, update_job-sites, update_site_status-snap, wrapped-snd,
}

-- The payload of a job names a site.
pub record Names (c : Config) (job : Job) (id : Text) : Type 0 where
  pub payload : Table Text
  pub decoded : c.payloads.decode job.payload ≡ ok payload
  pub listed : lookup (codes "site_id") payload ≡ some id
  pub given : id ≢ []

site_id_of_listed :
    (payload : Table Text) (id : Text)
    → lookup (codes "site_id") payload ≡ some id
    → site_id_of payload ≡ id
site_id_of_listed payload id e = ground arith

named_site_found :
    (c : Config) (job : Job) (site : Site) (r : Repository)
    → Names c job site.id
    → lookup site.id r.snap.sites ≡ some site
    → named_site c job r ≡ ok site
unfolding named_site
named_site_found c job site r n e =
    rw
      (
        n.decoded,
        named_site,
        site_id_of_listed n.payload site.id n.listed,
        text_eq-false site.id [] n.given,
      )
      (ground (arith, get_site_by_id_found site.id site r e))

-- A site after its job, by the error of the provisioner.
abbrev pub provisioned : Env → Site → Option Text → Site
provisioned env site none = record site { status = site_status_active; updated_at = env.updated_at }
provisioned env site (some cause) = record site {
  status = site_status_failed;
  updated_at = env.updated_at;
}

module _ ⦃u : Unicode⦄ (c : Config) (env : Env) (job : Job) (p : SiteProvisioner)
    (given : c.provisioner ≡ some p) (site : Site) (names : Names c job site.id) where
  run_provision_site-sites :
      (r : Repository)
      → lookup site.id r.snap.sites ≡ some site
      → lookup site.id (run_provision_site c env job r).1.snap.sites
        ≡ some (provisioned env site (p.provision_site site))
  unfolding run_provision_site
  run_provision_site-sites r e =
      let f = named_site_found c job site r names e in
      elim (Option-cases (p.provision_site site)) [
        | inl g ↦
            rw
              (
                given,
                f,
                g,
                run_provision_site,
                wrapped-snd,
                update_site_status-snap c.codec env.site_save env.updated_at site.id
                    site_status_active site r e,
              )
              (lookup-insert_self site.id _ r.snap.sites)
        | inr (cause, g) ↦
            rw
              (
                given,
                f,
                g,
                run_provision_site,
                update_site_status-snap c.codec env.site_save env.updated_at site.id
                    site_status_failed site r e,
              )
              (lookup-insert_self site.id _ r.snap.sites)
      ]

  run_by_type-provision :
      (r : Repository)
      → job.type ≡ job_type_provision_site
      → run_by_type c env job r ≡ run_provision_site c env job r
  unfolding run_by_type
  run_by_type-provision r kind = rw (kind, text_eq_self job_type_provision_site) refl

  run_by_type-deprovision :
      (r : Repository)
      → job.type ≡ job_type_deprovision_site
      → run_by_type c env job r ≡ run_deprovision_site c env job r
  unfolding run_by_type text_eq
  run_by_type-deprovision r kind = rw kind refl

  finish-sites :
      (cause : Option Text) (r : Repository)
      → ((finish c env job (cause, r)).snap.sites ≡ r.snap.sites)
        × ((finish c env job (cause, r)).snap.domain_index ≡ r.snap.domain_index)
  unfolding finish
  finish-sites none r = update_job-sites c.codec env.end_save job.id _ _ _ _ r
  finish-sites (some cause) r = update_job-sites c.codec env.end_save job.id _ _ _ _ r

  -- A job of the kind that provisions, whose mark is saved and whose payload names a stored site,
  -- leaves the site active if the provisioner succeeds and failed otherwise, at the reading of the
  -- clock, whether or not the later saves succeed.
  pub handle_job-provision :
      (r : Repository)
      → lookup job.id r.snap.jobs ≡ some job
      → lookup site.id r.snap.sites ≡ some site
      → job.type ≡ job_type_provision_site
      → (mark c env job.id r).0 ≡ ok tt
      → lookup site.id (handle_job c env job.id r).snap.sites
        ≡ some (provisioned env site (p.provision_site site))
  handle_job-provision r e stored kind h =
      let at : Repository = (mark c env job.id r).1 in
      let kept =
        update_job-sites c.codec env.start_save job.id job_status_running [] (some env.started_at)
          none r in
      let ran = run_by_type c env job at in
      rw
        (
          handle_job_marked c env job r e h,
          (finish-sites ran.0 ran.1).0,
          run_by_type-provision at kind,
        )
        (run_provision_site-sites at (rw kept.0 stored))

  run_deprovision_site_ok :
      (r : Repository)
      → lookup site.id r.snap.sites ≡ some site
      → p.deprovision_site site ≡ none
      → (lookup site.id (run_deprovision_site c env job r).1.snap.sites ≡ none)
        × (lookup (to_lower site.domain) (run_deprovision_site c env job r).1.snap.domain_index
            ≡ none)
  unfolding run_deprovision_site
  run_deprovision_site_ok r e g =
      let f = named_site_found c job site r names e in
      rw
        (
          given,
          f,
          g,
          run_deprovision_site,
          wrapped-snd,
          delete_site-snap c.codec env.site_save site.id site r e,
        )
        (
          lookup-delete_self site.id r.snap.sites,
          lookup-delete_self (to_lower site.domain) r.snap.domain_index,
        )

  run_deprovision_site_fails :
      (cause : Text) (r : Repository)
      → lookup site.id r.snap.sites ≡ some site
      → p.deprovision_site site ≡ some cause
      → lookup site.id (run_deprovision_site c env job r).1.snap.sites
        ≡ some (record site { status = site_status_failed; updated_at = env.updated_at })
  unfolding run_deprovision_site
  run_deprovision_site_fails cause r e g =
      let f = named_site_found c job site r names e in
      rw
        (
          given,
          f,
          g,
          run_deprovision_site,
          update_site_status-snap c.codec env.site_save env.updated_at site.id site_status_failed
              site r e,
        )
        (lookup-insert_self site.id _ r.snap.sites)

  -- What a job that takes a site down leaves of it, by the error of the provisioner: nothing, and a
  -- free domain; or the site, marked as failed.
  abbrev pub Deprovisioned : Option Text → Repository → Type 0
  Deprovisioned none r =
      (lookup site.id r.snap.sites ≡ none)
      × (lookup (to_lower site.domain) r.snap.domain_index ≡ none)
  Deprovisioned (some cause) r =
      lookup site.id r.snap.sites
      ≡ some (record site { status = site_status_failed; updated_at = env.updated_at })

  run_deprovision_site-Deprovisioned :
      (r : Repository)
      → lookup site.id r.snap.sites ≡ some site
      → Deprovisioned (p.deprovision_site site) (run_deprovision_site c env job r).1
  run_deprovision_site-Deprovisioned r e = elim (Option-cases (p.deprovision_site site)) [
    | inl g ↦ rw g (run_deprovision_site_ok r e g)
    | inr (cause, g) ↦ rw g (run_deprovision_site_fails cause r e g)
  ]

  Deprovisioned-finish :
      (left cause : Option Text) (r : Repository)
      → Deprovisioned left r
      → Deprovisioned left (finish c env job (cause, r))
  Deprovisioned-finish none cause r d = rw ((finish-sites cause r).0, (finish-sites cause r).1) d
  Deprovisioned-finish (some why) cause r d = rw (finish-sites cause r).0 d

  -- A job of the kind that takes a site down, whose mark is saved and whose payload names a stored
  -- site, deletes the site and frees its domain if the provisioner succeeds; otherwise the site stays
  -- and is marked as failed. Both hold whether or not the later saves succeed.
  pub handle_job-deprovision :
      (r : Repository)
      → lookup job.id r.snap.jobs ≡ some job
      → lookup site.id r.snap.sites ≡ some site
      → job.type ≡ job_type_deprovision_site
      → (mark c env job.id r).0 ≡ ok tt
      → Deprovisioned (p.deprovision_site site) (handle_job c env job.id r)
  handle_job-deprovision r e stored kind h =
      let at : Repository = (mark c env job.id r).1 in
      let kept =
        update_job-sites c.codec env.start_save job.id job_status_running [] (some env.started_at)
          none r in
      let ran = run_by_type c env job at in
      rw (handle_job_marked c env job r e h) (
        Deprovisioned-finish (p.deprovision_site site) ran.0 ran.1 (
          rw (run_by_type-deprovision at kind)
            (run_deprovision_site-Deprovisioned at (rw kept.0 stored))))

-- ===== src/Http/Sites.antt =====
-- The handlers of sites and of jobs, and of the audit log.
use nusantara_panel.Base.{Text, codes, [], ◌∷◌, Option, none, some, Result, ok, err, Unicode, pos}
use nusantara_panel.Store.{Site, Job, not_found}
use nusantara_panel.Store.FileDb.Snapshot.{Repository}
use nusantara_panel.Store.FileDb.Methods.{list_sites, get_site_by_id, list_jobs, get_job_by_id}
use nusantara_panel.Jobs
use nusantara_panel.Sites
use nusantara_panel.Sites.Lifecycle.{create_site, delete_site}
use nusantara_panel.Audit
use nusantara_panel.Http.{
  Request, Response, World, Env, Api, Reply, sites, one_site, site_and_job, deprovisioning, jobs,
  one_job, audit_logs, text, decode_json, write_error, write_json, parse_limit, audited,
}
use nusantara_panel.Http.Replies.{
  create_site_error, delete_site_error, invalid_body, internal_error,
}
use nusantara_panel.Http.Accounts.{Principal}

module _ {F G : Type 0} (a : Api F G) (env : Env) where
  -- The world with what a call of the sites and the jobs has left.
  abbrev pub with_jobs : Jobs.Service → Repository → World F G → World F G
  with_jobs s r w = record w { jobs = s; repo = r }

  unfoldable pub site_created :
      Principal
      → World F G
      → Option (Result Sites.Error (Site × Job) × Jobs.Service × Repository)
      → Reply F G
  unfolding audited
  site_created p w none = none
  site_created p w (some (err e, s, r)) = some (create_site_error e, with_jobs s r w)
  site_created p w (some (ok (site, job), s, r)) = some (
    write_json 201 (site_and_job site job),
    audited a env p.user.id (codes "site.create") (codes "site") site.id
        (some ((codes "domain", text site.domain) ∷ (codes "job_id", text job.id) ∷ []))
        (with_jobs s r w),
  )

  unfoldable pub site_deleted :
      Principal
      → Text
      → World F G
      → Option (Result Sites.Error Job × Jobs.Service × Repository)
      → Reply F G
  unfolding audited
  site_deleted p id w none = none
  site_deleted p id w (some (err e, s, r)) = some (delete_site_error e, with_jobs s r w)
  site_deleted p id w (some (ok job, s, r)) = some (
    write_json 202 (deprovisioning job),
    audited a env p.user.id (codes "site.delete.requested") (codes "site") id
        (some ((codes "job_id", text job.id) ∷ [])) (with_jobs s r w),
  )

  unfoldable pub handle_delete_site : Principal → Request → World F G → Reply F G
  unfolding site_deleted
  handle_delete_site p req w =
      site_deleted p (req.path_value (codes "siteID")) w
        (delete_site a.jobs env.site p.user.id (req.path_value (codes "siteID")) w.jobs w.repo)

module _ ⦃u : Unicode⦄ {F G : Type 0} (a : Api F G) (env : Env) where
  unfoldable pub handle_create_site : Principal → Request → World F G → Reply F G
  unfolding site_created
  handle_create_site p req w = elim (decode_json a.decoders.create_site req) [
    | none ↦ some (invalid_body, w)
    | some input ↦
        site_created a env p w (create_site a.jobs env.site p.user.id input w.jobs w.repo)
  ]

module _ {F G : Type 0} where
  unfoldable pub handle_get_site : Request → World F G → Response × World F G
  handle_get_site req w = elim (get_site_by_id (req.path_value (codes "siteID")) w.repo) [
    | ok site ↦ (write_json 200 (one_site site), w)
    | err not_found ↦ (write_error 404 (codes "site not found"), w)
    | err _ ↦ (internal_error, w)
  ]

  unfoldable pub handle_get_job : Request → World F G → Response × World F G
  handle_get_job req w = elim (get_job_by_id (req.path_value (codes "jobID")) w.repo) [
    | ok job ↦ (write_json 200 (one_job job), w)
    | err not_found ↦ (write_error 404 (codes "job not found"), w)
    | err _ ↦ (internal_error, w)
  ]

module _ ⦃u : Unicode⦄ {F G : Type 0} where
  unfoldable pub handle_list_sites : Request → World F G → Response × World F G
  handle_list_sites req w =
      (write_json 200 (sites (list_sites (pos (parse_limit req 200)) w.repo)), w)

  unfoldable pub handle_list_jobs : Request → World F G → Response × World F G
  handle_list_jobs req w = (write_json 200 (jobs (list_jobs (pos (parse_limit req 200)) w.repo)), w)

  unfoldable pub handle_list_audit_logs : Request → World F G → Response × World F G
  handle_list_audit_logs req w =
      (write_json 200 (audit_logs (Audit.list (pos (parse_limit req 200)) w.repo)), w)

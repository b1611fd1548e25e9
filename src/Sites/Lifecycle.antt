-- ===== src/Sites/Lifecycle.antt =====
-- `CreateSite` and `DeleteSite` of internal/service/sites/service.go. An attempt that waits for room
-- in the channel of jobs gives `none`.
use nusantara_panel.Base.{
  Text, codes, [], ◌∷◌, Option, none, some, Result, ok, err, if◌then◌else◌, Unicode, to_lower,
  trim_space,
}
use nusantara_panel.Base.Table.{Table}
use nusantara_panel.Store
use nusantara_panel.Store.{
  Site, Job, Time, site_status_provisioning, site_status_failed, site_status_deleting,
  job_type_provision_site, job_type_deprovision_site,
}
use nusantara_panel.Store.FileDb.Snapshot.{Outcome, Repository}
use nusantara_panel.Store.FileDb.Methods
use nusantara_panel.Store.FileDb.Methods.{get_site_by_id, update_site_status}
use nusantara_panel.Jobs
use nusantara_panel.Jobs.{Config, Select, enqueue}
use nusantara_panel.Sites.{
  Error, invalid_domain, invalid_root, invalid_runtime, id_fails, store_error, jobs_error,
  normalize_domain, is_valid_domain, is_one_of, allowed_runtime,
}
use nusantara_panel.Sites.Paths.{is_valid_root_path}

pub record CreateSiteInput : Type 0 where
  pub domain : Text
  pub root_path : Text
  pub runtime : Text

-- The clock, the random identifiers and the outcomes of the saves of one call.
pub record Env : Type 0 where
  pub now : Time
  pub job_now : Time
  pub failed_now : Time
  pub site_id : Result Text Text
  pub job_id : Result Text Text
  pub site_save : Outcome
  pub job_save : Outcome
  pub failed_save : Outcome
  pub how : Select

-- A site whose job is not enqueued is marked as failed; the error of that is dropped.
abbrev pub unless_enqueued {ℓ} :
    {A : Type ℓ}
    → Config
    → Env
    → Text
    → (Job → A)
    → Option (Result Jobs.Error Job × Jobs.Service × Repository)
    → Option (Result Error A × Jobs.Service × Repository)
unless_enqueued c env id f none = none
unless_enqueued c env id f (some (ok job, s, r)) = some (ok (f job), s, r)
unless_enqueued c env id f (some (err e, s, r)) = some (
  err (jobs_error e),
  s,
  (update_site_status c.codec env.failed_save env.failed_now id site_status_failed r).1,
)

abbrev pub provision_payload : Site → Table Text
provision_payload site =
    (codes "site_id", site.id)
    ∷ (codes "domain", site.domain)
    ∷ (codes "runtime", site.runtime)
    ∷ (codes "rootPath", site.root_path)
    ∷ []

-- The end of `create_site`, by how the repository took the site.
abbrev pub enqueued_if_stored :
    Config
    → Env
    → Text
    → Site
    → Jobs.Service
    → Result Store.Error (Unit {0}) × Repository
    → Option (Result Error (Site × Job) × Jobs.Service × Repository)
enqueued_if_stored c env actor site s (err e, r) = some (err (store_error e), s, r)
enqueued_if_stored c env actor site s (ok _, r) =
    unless_enqueued c env site.id (λ job. (site, job))
      (enqueue c env.job_save env.job_now env.how env.job_id actor job_type_provision_site
        (provision_payload site) s r)

module _ ⦃u : Unicode⦄ where
  unfoldable pub store_site :
      Config
      → Env
      → Text
      → Text
      → Text
      → Text
      → Result Text Text
      → Jobs.Service
      → Repository
      → Option (Result Error (Site × Job) × Jobs.Service × Repository)
  store_site c env actor domain root_path runtime (err cause) s r =
      some (err (id_fails cause), s, r)
  store_site c env actor domain root_path runtime (ok id) s r =
      let site : Site = record {
        id = id;
        domain = domain;
        root_path = root_path;
        runtime = runtime;
        status = site_status_provisioning;
        created_by = actor;
        created_at = env.now;
        updated_at = env.now;
      } in
      enqueued_if_stored c env actor site s (Methods.create_site c.codec env.site_save site r)

  unfoldable pub create_site :
      Config
      → Env
      → Text
      → CreateSiteInput
      → Jobs.Service
      → Repository
      → Option (Result Error (Site × Job) × Jobs.Service × Repository)
  unfolding store_site
  create_site c env actor input s r =
      let domain = normalize_domain input.domain in
      let root_path = trim_space input.root_path in
      let runtime = to_lower (trim_space input.runtime) in
      if is_valid_domain domain
      then if is_valid_root_path root_path
        then if is_one_of runtime allowed_runtime
          then store_site c env actor domain root_path runtime env.site_id s r
          else some (err invalid_runtime, s, r)
        else some (err invalid_root, s, r)
      else some (err invalid_domain, s, r)

abbrev pub enqueued_if_marked :
    Config
    → Env
    → Text
    → Site
    → Jobs.Service
    → Result Store.Error (Unit {0}) × Repository
    → Option (Result Error Job × Jobs.Service × Repository)
enqueued_if_marked c env actor site s (err e, r) = some (err (store_error e), s, r)
enqueued_if_marked c env actor site s (ok _, r) =
    unless_enqueued c env site.id (λ job. job)
      (enqueue c env.job_save env.job_now env.how env.job_id actor job_type_deprovision_site
        ((codes "site_id", site.id) ∷ []) s r)

unfoldable pub delete_site :
    Config
    → Env
    → Text
    → Text
    → Jobs.Service
    → Repository
    → Option (Result Error Job × Jobs.Service × Repository)
delete_site c env actor id s r = elim (get_site_by_id id r) [
  | err e ↦ some (err (store_error e), s, r)
  | ok site ↦
      enqueued_if_marked c env actor site s
        (update_site_status c.codec env.site_save env.now site.id site_status_deleting r)
]

-- ===== src/Sites/Created.antt =====
-- What a site that `create_site` has made is.
use nusantara_panel.Base.{
  ◌≡◌, ◌++◌, [], ◌∷◌, true, Text, Option, some, none, Result, ok, err, arith, Unicode, to_lower,
  trim_space, ap, subst, Option-cases, inl, inr, refl,
}
use nusantara_panel.Base.Table.{lookup, lookup-insert_self}
use nusantara_panel.Store
use nusantara_panel.Store.{Site, Job, site_status_provisioning, job_type_provision_site}
use nusantara_panel.Store.FileDb.Snapshot.{Outcome, Repository}
use nusantara_panel.Store.FileDb.Methods
use nusantara_panel.Store.FileDb.Methods.{create_job}
use nusantara_panel.Store.FileDb.Invariant.{save-snap}
use nusantara_panel.Store.FileDb.Accounts.{create_site-snap, create_site_taken}
use nusantara_panel.Jobs
use nusantara_panel.Jobs.{Config, Service, enqueue}
use nusantara_panel.Jobs.Queue.{Offer, enqueue-Offer, accepted}
use nusantara_panel.Sites.{normalize_domain, is_valid_domain, is_one_of, allowed_runtime}
use nusantara_panel.Sites.Paths.{is_valid_root_path}
use nusantara_panel.Sites.Lifecycle.{
  CreateSiteInput, Env, create_site, store_site, enqueued_if_stored, unless_enqueued,
  provision_payload,
}

module _ ⦃u : Unicode⦄ (c : Config) (env : Env) (actor : Text) where
  create_site_checked :
      (input : CreateSiteInput) (s : Service) (r : Repository) (site : Site) (job : Job)
      (s' : Service) (r' : Repository)
      → create_site c env actor input s r ≡ some (ok (site, job), s', r')
      → (is_valid_domain (normalize_domain input.domain) ≡ true)
        × (is_valid_root_path (trim_space input.root_path) ≡ true)
        × (is_one_of (to_lower (trim_space input.runtime)) allowed_runtime ≡ true)
        × (store_site c env actor
              (normalize_domain input.domain)
              (trim_space input.root_path)
              (to_lower (trim_space input.runtime))
              env.site_id
              s
              r
            ≡ some (ok (site, job), s', r'))
  unfolding create_site
  create_site_checked input s r site job s' r' h = ground arith

  unless_enqueued_ok :
      (id : Text) (site₀ site : Site) (job : Job) (s' : Service) (r' : Repository)
      (x : Option (Result Jobs.Error Job × Service × Repository))
      → unless_enqueued {A = Site × Job} c env id (λ j. (site₀, j)) x
        ≡ some (ok (site, job), s', r')
      → (site₀ ≡ site) × (x ≡ some (ok job, s', r'))
  unless_enqueued_ok id site₀ site job s' r' none h = ground arith
  unless_enqueued_ok id site₀ site job s' r' (some (err e, s₁, r₁)) h = ground arith
  unless_enqueued_ok id site₀ site job s' r' (some (ok j, s₁, r₁)) h = ground arith

  enqueued_if_stored_ok :
      (site₀ site : Site) (s : Service) (r : Repository) (job : Job) (s' : Service)
      (r' : Repository) (p : Result Store.Error (Unit {0}) × Repository)
      → enqueued_if_stored c env actor site₀ s p ≡ some (ok (site, job), s', r')
      → (site₀ ≡ site)
        × (p.0 ≡ ok tt)
        × (enqueue c env.job_save env.job_now env.how env.job_id actor job_type_provision_site
              (provision_payload site₀)
              s
              p.1
            ≡ some (ok job, s', r'))
  enqueued_if_stored_ok site₀ site s r job s' r' (err e, r₁) h = ground arith
  enqueued_if_stored_ok site₀ site s r job s' r' (ok _, r₁) h =
      let (same, sent) = unless_enqueued_ok site₀.id site₀ site job s' r' _ h in (same, refl, sent)

  create_job-sites :
      (o : Outcome) (job : Job) (r : Repository)
      → (create_job c.codec o job r).1.snap.sites ≡ r.snap.sites
  unfolding create_job
  create_job-sites o job r = ap (λ x. x.sites) (save-snap c.codec o (record r { snap = _ }))

  -- What an enqueued job has left in the channel and in the store.
  Offer-sites :
      (o : Outcome) (s s' : Service) (r r' : Repository) (job : Job)
      → Offer c o s r (ok job) s' r'
      → (s'.queue ≡ s.queue ++ job.id ∷ []) × (r'.snap.sites ≡ r.snap.sites)
  Offer-sites o s s' r r' job (accepted _ q saved a b room) = (refl, create_job-sites o job r)

  create_site_stored :
      (o : Outcome) (site : Site) (r : Repository)
      → (Methods.create_site c.codec o site r).0 ≡ ok tt
      → lookup site.id (Methods.create_site c.codec o site r).1.snap.sites ≡ some site
  create_site_stored o site r h =
      elim (Option-cases (lookup (to_lower site.domain) r.snap.domain_index)) [
        | inr (id, taken) ↦ absurd (cc (create_site_taken c.codec o site r id taken, h))
        | inl free ↦
            rw (create_site-snap c.codec o site r free)
              (lookup-insert_self site.id site r.snap.sites)
      ]

  -- A site that was made with its job.
  pub record Created (site : Site) (job : Job) (s s' : Service) (r' : Repository) : Type 0 where
    pub valid_domain : is_valid_domain site.domain ≡ true
    pub valid_root : is_valid_root_path site.root_path ≡ true
    pub valid_runtime : is_one_of site.runtime allowed_runtime ≡ true
    pub provisioning : site.status ≡ site_status_provisioning
    pub owner : site.created_by ≡ actor
    pub stored : lookup site.id r'.snap.sites ≡ some site
    pub queued : s'.queue ≡ s.queue ++ job.id ∷ []

  store_site-Created :
      (domain root_path runtime : Text) (id : Result Text Text) (s : Service) (r : Repository)
      (site : Site) (job : Job) (s' : Service) (r' : Repository)
      → is_valid_domain domain ≡ true
      → is_valid_root_path root_path ≡ true
      → is_one_of runtime allowed_runtime ≡ true
      → store_site c env actor domain root_path runtime id s r ≡ some (ok (site, job), s', r')
      → Created site job s s' r'
  unfolding store_site
  store_site-Created domain root_path runtime (err cause) s r site job s' r' a b d h = ground arith
  store_site-Created domain root_path runtime (ok id) s r site job s' r' a b d h =
      let site₀ : Site = record {
        id = id;
        domain = domain;
        root_path = root_path;
        runtime = runtime;
        status = site_status_provisioning;
        created_by = actor;
        created_at = env.now;
        updated_at = env.now;
      } in
      let made = Methods.create_site c.codec env.site_save site₀ r in
      let (same, saved, sent) = enqueued_if_stored_ok site₀ site s r job s' r' made h in
      let (queue, sites) = Offer-sites env.job_save s s' made.1 r' job (
        enqueue-Offer c env.job_save s made.1 env.job_now env.how env.job_id actor
          job_type_provision_site (provision_payload site₀) (ok job) s' r' sent) in
      let done : Created site₀ job s s' r' = record {
        valid_domain = a;
        valid_root = b;
        valid_runtime = d;
        provisioning = refl;
        owner = refl;
        stored = rw sites (create_site_stored env.site_save site₀ r saved);
        queued = queue;
      } in
      subst (λ x. Created x job s s' r') same done

  -- Making a site, where it reports success, has a valid domain, a valid root and an allowed
  -- runtime, stores the site as provisioning for the user, and puts its job at the end of the channel.
  pub create_site-Created :
      (input : CreateSiteInput) (s : Service) (r : Repository) (site : Site) (job : Job)
      (s' : Service) (r' : Repository)
      → create_site c env actor input s r ≡ some (ok (site, job), s', r')
      → Created site job s s' r'
  create_site-Created input s r site job s' r' h =
      let (a, b, d, made) = create_site_checked input s r site job s' r' h in
      store_site-Created _ _ _ env.site_id s r site job s' r' a b d made

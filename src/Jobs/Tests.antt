-- ===== src/Jobs/Tests.antt =====
-- The worker on a stored job and a stored site.
use nusantara_panel.Base.{
  arith, All, false, true, codes, [], ◌∷◌, ◌≡◌, ◌≢◌, refl, ok, some, none, ne_of_text_eq, text_eq,
  ascii_tables,
}
use nusantara_panel.Base.Table.{lookup, insert}
use nusantara_panel.Store.{
  Job, job_type_provision_site, job_type_deprovision_site, job_status_queued,
}
use native.Mathlib.Decide.{ℕ_discrete}
use nusantara_panel.Store.FileDb.Snapshot.{
  Repository, save, replace_file, saved, new_snapshot, write_fails,
}
use nusantara_panel.Store.FileDb.Methods.{update_job, create_job}
use nusantara_panel.Store.FileDb.Invariant.Steps.{new_snapshot-IsValid}
use nusantara_panel.Store.FileDb.Tests.{one_snapshot, Snapshot-discrete, empty_repository, blog}
use nusantara_panel.Jobs.{
  serving, Config, Env, SiteProvisioner, PayloadCodec, Service, enqueue, sends, handle_job, start,
  new_service, run_by_type,
}
use nusantara_panel.Jobs.Worker.{mark, left, running, handle_job-jobs}
use nusantara_panel.Jobs.Sites.{
  Names, provisioned, Deprovisioned, handle_job-provision, handle_job-deprovision,
}
use nusantara_panel.Jobs.Queue.{Offer, enqueue-Offer}
use nusantara_panel.Jobs.Drain.{rounds, IsTaken, rounds-drain}
use nusantara_panel.Jobs.History.{Reachable, fresh, starts, enqueues, IsSound, Reachable-IsSound}

-- A job's payload in these tests is the text of its site's identifier.
abbrev pub bare_payloads : PayloadCodec
bare_payloads = record {
  encode = λ m. ok (elim (lookup (codes "site_id") m) [ none ↦ [] | some id ↦ id ]);
  decode = λ raw. ok ((codes "site_id", raw) ∷ []);
}

abbrev job : Job
job = record {
  id = codes "j1";
  type = job_type_provision_site;
  status = job_status_queued;
  payload = codes "s1";
  error = [];
  started_at = none;
  finished_at = none;
  created_at = 3;
  triggered_by = codes "u1";
}

abbrev env : Env
env = record {
  sees_done = false;
  started_at = 20;
  finished_at = 29;
  updated_at = 28;
  start_save = saved;
  site_save = write_fails none (codes "full");
  end_save = saved;
}

abbrev pub provisioner : SiteProvisioner
provisioner = record {
  provision_site = λ site. none;
  deprovision_site = λ site. some (codes "nginx -t");
}

module _ (j : Job) where
  abbrev one_job : Repository
  one_job = record empty_repository {
    snap = record new_snapshot {
      sites = (codes "s1", blog) ∷ [];
      domain_index = (codes "blog.id", codes "s1") ∷ [];
      jobs = (codes "j1", j) ∷ [];
    };
  }

  abbrev config : Config
  config = record {
    codec = one_snapshot (record one_job.snap { jobs = (codes "j1", running env j) ∷ [] });
    payloads = bare_payloads;
    provisioner = some provisioner;
  }

handle_job-jobs_example :
    (lookup (codes "j1") (handle_job (config job) env (codes "j1") (one_job job)).snap.jobs
      ≡ some (
          left env job
            (mark (config job) env (codes "j1") (one_job job)).0
            (run_by_type
              (config job)
              env
              job
              (mark (config job) env (codes "j1") (one_job job)).1).0))
    × (codes "j1" ≢ codes "j2"
        → lookup (codes "j2") (handle_job (config job) env (codes "j1") (one_job job)).snap.jobs
          ≡ lookup (codes "j2") (one_job job).snap.jobs)
unfolding lookup
handle_job-jobs_example = handle_job-jobs (config job) env job (codes "j2") (one_job job) refl

job_names : Names (config job) job (codes "s1")
unfolding lookup text_eq
job_names = record {
  payload = (codes "site_id", codes "s1") ∷ [];
  decoded = refl;
  listed = refl;
  given = ne_of_text_eq (codes "s1") [] refl;
}

handle_job-provision_example :
    lookup (codes "s1") (handle_job (config job) env (codes "j1") (one_job job)).snap.sites
    ≡ some (provisioned env blog none)
unfolding lookup update_job save replace_file insert text_eq Snapshot-discrete ℕ_discrete
handle_job-provision_example =
    handle_job-provision (config job) env job provisioner refl blog job_names (one_job job) refl
      refl refl refl

abbrev removal : Job
removal = record job { type = job_type_deprovision_site }

removal_names : Names (config removal) removal (codes "s1")
unfolding lookup text_eq
removal_names = record {
  payload = (codes "site_id", codes "s1") ∷ [];
  decoded = refl;
  listed = refl;
  given = ne_of_text_eq (codes "s1") [] refl;
}

handle_job-deprovision_example :
    Deprovisioned
      (config removal)
      env
      removal
      provisioner
      refl
      blog
      removal_names
      (some (codes "nginx -t"))
      (handle_job (config removal) env (codes "j1") (one_job removal))
unfolding lookup update_job save replace_file insert text_eq Snapshot-discrete ℕ_discrete
handle_job-deprovision_example =
    handle_job-deprovision (config removal) env removal provisioner refl blog removal_names
      (one_job removal) refl refl refl refl

abbrev with_job : Repository
with_job = record empty_repository {
  snap = record new_snapshot { jobs = (codes "j1", job) ∷ [] };
  disk = record { state = some []; tmp = none };
}

abbrev queueing : Config
queueing = record (config job) { codec = one_snapshot with_job.snap }

enqueue-Offer_example :
    Offer queueing saved
      (start new_service)
      empty_repository
      (ok job)
      (record { queue = codes "j1" ∷ []; started = true; stopped = false; worker = serving })
      with_job
unfolding enqueue start new_service create_job save replace_file insert lookup text_eq
    Snapshot-discrete ℕ_discrete
enqueue-Offer_example =
    enqueue-Offer queueing saved (start new_service) empty_repository 3 sends (ok (codes "j1"))
      (codes "u1") job_type_provision_site ((codes "site_id", codes "s1") ∷ []) (ok job)
      (record { queue = codes "j1" ∷ []; started = true; stopped = false; worker = serving })
      with_job refl

abbrev enqueued : Service
enqueued = record { queue = codes "j1" ∷ []; started = true; stopped = false; worker = serving }

enqueued-Reachable : Reachable queueing enqueued with_job
unfolding enqueue start new_service create_job save replace_file insert lookup text_eq
    Snapshot-discrete ℕ_discrete
enqueued-Reachable =
    enqueues (starts (fresh empty_repository new_snapshot-IsValid)) saved 3 sends (ok (codes "j1"))
      (codes "u1") job_type_provision_site ((codes "site_id", codes "s1") ∷ []) (ok job) refl

Reachable-IsSound_example : IsSound enqueued with_job
Reachable-IsSound_example = Reachable-IsSound queueing enqueued with_job enqueued-Reachable

rounds-drain_example :
    ((rounds queueing (env ∷ env ∷ []) enqueued with_job).0.queue ≡ [])
    × All (IsTaken (rounds queueing (env ∷ env ∷ []) enqueued with_job).1) (codes "j1" ∷ [])
rounds-drain_example =
    rounds-drain queueing (env ∷ env ∷ []) enqueued with_job refl
      (Reachable-IsSound queueing enqueued with_job enqueued-Reachable) (omega arith)

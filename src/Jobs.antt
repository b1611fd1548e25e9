-- ===== src/Jobs.antt =====
-- internal/jobs/service.go: the queue of jobs and its one worker. The goroutine of the worker takes
-- one identifier after another from the channel and handles it to the end, so a history of the
-- service is a sequence of `start`, `stop`, `enqueue` and `work`.
pub mod Worker
pub mod Tests
pub mod Sites
pub mod Drain
pub mod Kept
pub mod Queue
pub mod History
use nusantara_panel.Store
use nusantara_panel.Store.{
  Site, Job, Time, error_text, job_status_queued, job_status_running, job_status_success,
  job_status_failed, job_type_provision_site, job_type_deprovision_site, site_status_active,
  site_status_failed,
}
use nusantara_panel.Store.FileDb.Snapshot.{Codec, Outcome, Repository}
use nusantara_panel.Store.FileDb.Methods.{
  create_job, get_job_by_id, update_job, get_site_by_id, update_site_status, delete_site,
}
use nusantara_panel.Base.{
  ◌||◌, ℕ, Text, codes, [], ◌∷◌, ◌++◌, List, Bool, true, false, not, Option, none, some, Result, ok,
  err, ltb, length, text_eq, if◌then◌else◌, Unicode,
}
use nusantara_panel.Base.Table.{Table, lookup}

pub data Error : Type 0 where
  not_started stopped_already : Error
  marshal_fails id_fails context_done : Text → Error
  store_error : Store.Error → Error

-- What a provisioner answers for a site: the text of its error, if there is one.
pub record SiteProvisioner : Type 0 where
  pub provision_site : Site → Option Text
  pub deprovision_site : Site → Option Text

-- encoding/json on a map from texts to texts.
pub record PayloadCodec : Type 0 where
  pub encode : Table Text → Result Text Text
  pub decode : Text → Result Text (Table Text)

pub record Config : Type 0 where
  pub codec : Codec
  pub payloads : PayloadCodec
  pub provisioner : Option SiteProvisioner

-- The goroutine of the worker: whether it has begun, is in its loop, finds its context done when it
-- comes back to its `select`, or has returned.
pub data Loop : Type 0 where
  not_begun serving told_to_end ended : Loop

-- The channel holds 256 identifiers, the oldest first.
pub record Service : Type 0 where
  pub queue : List Text
  pub started : Bool
  pub stopped : Bool
  pub worker : Loop

abbrev is_empty : List Text → Bool
is_empty [] = true
is_empty (id ∷ ids) = false

abbrev pub queue_size : ℕ
queue_size = 256

pub new_service : Service
new_service = record { queue = []; started = false; stopped = false; worker = not_begun }

unfoldable pub start : Service → Service
start s = if s.started then s else record s { started = true; worker = serving }

-- The worker when the context that `Start` made, if it was called, is cancelled.
abbrev pub told : Loop → Loop
told not_begun = not_begun
told serving = told_to_end
told told_to_end = told_to_end
told ended = ended

-- `Stop` cancels the worker's context; what the worker is at, it finishes. The waiting for that is
-- left out.
unfoldable pub stop : Service → Service
stop s = if s.stopped then s else record s { stopped = true; worker = told s.worker }

-- How the `select` at the end of `Enqueue` goes.
pub data Select : Type 0 where
  sends : Select
  cancelled : Text → Select

-- The end of `enqueue`: `none` stands for a send that waits, since the channel is full.
pub send : Select → Job → Service → Option (Result Error Job × Service)
send (cancelled cause) job s = some (err (context_done cause), s)
send sends job s =
    if ltb (length s.queue) queue_size
    then some (ok job, record s { queue = s.queue ++ job.id ∷ [] })
    else none

abbrev pub beside :
    Repository
    → Option (Result Error Job × Service)
    → Option (Result Error Job × Service × Repository)
beside r none = none
beside r (some (res, s)) = some (res, s, r)

abbrev pub sent :
    Select
    → Job
    → Service
    → Result Store.Error (Unit {0}) × Repository
    → Option (Result Error Job × Service × Repository)
sent how job s (err e, r) = some (err (store_error e), s, r)
sent how job s (ok _, r) = beside r (send how job s)

pub create_and_send :
    Config
    → Outcome
    → Time
    → Select
    → Text
    → Text
    → Text
    → Result Text Text
    → Service
    → Repository
    → Option (Result Error Job × Service × Repository)
create_and_send c o now how triggered_by job_type body (err cause) s r =
    some (err (id_fails cause), s, r)
create_and_send c o now how triggered_by job_type body (ok id) s r =
    let job : Job = record {
      id = id;
      type = job_type;
      status = job_status_queued;
      payload = body;
      error = [];
      started_at = none;
      finished_at = none;
      created_at = now;
      triggered_by = triggered_by;
    } in
    sent how job s (create_job c.codec o job r)

unfoldable pub enqueue :
    Config
    → Outcome
    → Time
    → Select
    → Result Text Text
    → Text
    → Text
    → Table Text
    → Service
    → Repository
    → Option (Result Error Job × Service × Repository)
unfolding create_and_send send
enqueue c o now how id triggered_by job_type payload s r =
    if not s.started
    then some (err not_started, s, r)
    else if s.stopped
    then some (err stopped_already, s, r)
    else elim (c.payloads.encode payload) [
      | err cause ↦ some (err (marshal_fails cause), s, r)
      | ok body ↦ create_and_send c o now how triggered_by job_type body id s r
    ]

-- The clock and the outcomes of the saves while one job is handled, and which of two cases the
-- `select` of the worker takes when its context is done and there is a job.
pub record Env : Type 0 where
  pub sees_done : Bool
  pub started_at : Time
  pub finished_at : Time
  pub updated_at : Time
  pub start_save : Outcome
  pub site_save : Outcome
  pub end_save : Outcome

-- payload["site_id"], which is empty for a missing key
abbrev pub site_id_of : Table Text → Text
site_id_of payload = elim (lookup (codes "site_id") payload) [ none ↦ [] | some id ↦ id ]

abbrev pub wrapped : Text → Result Store.Error (Unit {0}) × Repository → Option Text × Repository
wrapped context (ok _, r) = (none, r)
wrapped context (err e, r) = (some (context ++ error_text e), r)

-- The start that the two kinds of job share: the site that the payload names, or an error.
pub named_site : Config → Job → Repository → Result Text Site
named_site c job r = elim (c.payloads.decode job.payload) [
  | err cause ↦ err (codes "decode payload: " ++ cause)
  | ok payload ↦
      if text_eq (site_id_of payload) []
      then err (codes "missing site_id in payload")
      else elim (get_site_by_id (site_id_of payload) r) [
        | err e ↦ err (codes "load site: " ++ error_text e)
        | ok site ↦ ok site
      ]
]

-- The error of a job, if there is one, and the next repository. The error of marking the site as
-- failed is dropped.
unfoldable pub run_provision_site : Config → Env → Job → Repository → Option Text × Repository
unfolding named_site
run_provision_site c env job r = elim c.provisioner [
  | none ↦ (some (codes "site provisioner is not configured"), r)
  | some p ↦ elim (named_site c job r) [
    | err cause ↦ (some cause, r)
    | ok site ↦ elim (p.provision_site site) [
      | some cause ↦ (
        some cause,
        (update_site_status c.codec env.site_save env.updated_at site.id site_status_failed r).1,
      )
      | none ↦
          wrapped (codes "update site status: ")
            (update_site_status c.codec env.site_save env.updated_at site.id site_status_active r)
    ]
  ]
]

module _ ⦃u : Unicode⦄ where
  unfoldable pub run_deprovision_site : Config → Env → Job → Repository → Option Text × Repository
  unfolding named_site
  run_deprovision_site c env job r = elim c.provisioner [
    | none ↦ (some (codes "site provisioner is not configured"), r)
    | some p ↦ elim (named_site c job r) [
      | err cause ↦ (some cause, r)
      | ok site ↦ elim (p.deprovision_site site) [
        | some cause ↦ (
          some cause,
          (update_site_status c.codec env.site_save env.updated_at site.id site_status_failed r).1,
        )
        | none ↦
            wrapped (codes "delete site metadata: ") (delete_site c.codec env.site_save site.id r)
      ]
    ]
  ]

  unfoldable pub run_by_type : Config → Env → Job → Repository → Option Text × Repository
  run_by_type c env job r =
      if text_eq job.type job_type_provision_site
      then run_provision_site c env job r
      else if text_eq job.type job_type_deprovision_site
      then run_deprovision_site c env job r
      else (some (codes "unsupported job type: " ++ job.type), r)

  -- The last write of `handle_job`; its error is only logged.
  pub finish : Config → Env → Job → Option Text × Repository → Repository
  finish c env job (some cause, r) =
      (update_job c.codec env.end_save job.id job_status_failed cause (some env.started_at)
        (some env.finished_at) r).1
  finish c env job (none, r) =
      (update_job c.codec env.end_save job.id job_status_success [] (some env.started_at)
        (some env.finished_at) r).1

  abbrev pub run_if_started :
      Config → Env → Job → Result Store.Error (Unit {0}) × Repository → Repository
  run_if_started c env job (err e, r) = r
  run_if_started c env job (ok _, r) = finish c env job (run_by_type c env job r)

  unfoldable pub handle_job : Config → Env → Text → Repository → Repository
  unfolding finish
  handle_job c env id r = elim (get_job_by_id id r) [
    | err e ↦ r
    | ok job ↦ run_if_started c env job (
        update_job c.codec env.start_save job.id job_status_running [] (some env.started_at) none r)
  ]

  -- The worker takes the next job from the channel, and waits if there is none.
  abbrev pub take_job : Config → Env → Service → Repository → Service × Repository
  take_job c env s r = elim s.queue [
    | [] ↦ (s, r)
    | id ∷ rest ↦ (record s { queue = rest }, handle_job c env id r)
  ]

  -- One round of the worker, while it runs. When its context is done, it returns, at once if there
  -- is no job, or else if its `select` takes that case.
  unfoldable pub work : Config → Env → Service → Repository → Service × Repository
  unfolding handle_job
  work c env s r = elim s.worker [
    | not_begun ↦ (s, r)
    | serving ↦ take_job c env s r
    | told_to_end ↦
        if env.sees_done || is_empty s.queue
        then (record s { worker = ended }, r)
        else take_job c env s r
    | ended ↦ (s, r)
  ]

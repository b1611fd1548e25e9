-- ===== src/Jobs/History.antt =====
-- Any history of the service beside the other writers of its store: what holds of the state and of
-- the channel.
use nusantara_panel.Base.{
  ◌||◌, inr, inl, Bool-cases, Bool, ◌≡◌, ◌≤◌, List, [], ◌∷◌, some, Result, arith, Unicode, length,
  All, All-append, Text, refl, length-append,
}
use nusantara_panel.Base.Table.{Table, lookup-insert_self}
use nusantara_panel.Store.{Job, Time}
use nusantara_panel.Store.FileDb.Snapshot.{Outcome, Repository}
use nusantara_panel.Store.FileDb.Methods.{create_job}
use nusantara_panel.Store.FileDb.Calls.{Call, apply, IsAdmissible, creates_job}
use nusantara_panel.Store.FileDb.Invariant.{IsValid, save-snap}
use nusantara_panel.Store.FileDb.Invariant.Steps.{apply-IsValid}
use nusantara_panel.Jobs
use nusantara_panel.Jobs.{
  is_empty, Loop, not_begun, serving, told_to_end, ended, take_job, handle_job, cancelled, send,
  create_and_send, sent, not_started, stopped_already, marshal_fails, sends, cancelled, store_error,
  context_done, Config, Env, Service, Select, queue_size, new_service, start, stop, enqueue, work,
}
use nusantara_panel.Jobs.Queue.{Offer, refused, unsent, accepted, enqueue-Offer}
use nusantara_panel.Jobs.Kept.{IsStored, apply-IsStored, handle_job-Kept}

-- The histories of the service, beside the other writers of its store.
pub data Reachable ⦃u : Unicode⦄ (c : Config) : Service → Repository → Type 0 where
  fresh : (r : Repository) → IsValid r.snap → Reachable c new_service r
  starts : {s : Service} {r : Repository} → Reachable c s r → Reachable c (start s) r
  stops : {s : Service} {r : Repository} → Reachable c s r → Reachable c (stop s) r
  enqueues :
      {s s' : Service} {r r' : Repository}
      → Reachable c s r
      → (o : Outcome) (now : Time) (how : Select) (id : Result Text Text) (by kind : Text)
        (payload : Table Text) (res : Result Jobs.Error Job)
      → enqueue c o now how id by kind payload s r ≡ some (res, s', r')
      → Reachable c s' r'
  works :
      {s : Service} {r : Repository}
      → Reachable c s r
      → (env : Env) → Reachable c (work c env s r).0 (work c env s r).1
  calls :
      {s : Service} {r : Repository}
      → Reachable c s r
      → (o : Outcome) (call : Call) → IsAdmissible call r.snap
      → Reachable c s (apply c.codec o call r).1

-- The state is valid, the channel is within its size, and holds identifiers of stored jobs alone.
pub record IsSound ⦃u : Unicode⦄ (s : Service) (r : Repository) : Type 0 where
  pub valid : IsValid r.snap
  pub bounded : length s.queue ≤ queue_size
  pub stored : All (IsStored r) s.queue

module _ ⦃u : Unicode⦄ (c : Config) where
  All-Kept :
      (r r' : Repository) (ids : List Text)
      → ((id : Text) → IsStored r id → IsStored r' id)
      → All (IsStored r) ids
      → All (IsStored r') ids
  All-Kept r r' [] k a = tt
  All-Kept r r' (id ∷ ids) k a = (k id a.0, All-Kept r r' ids k a.1)

  create_job-IsSound :
      (o : Outcome) (job : Job) (s : Service) (r : Repository)
      → IsSound s r
      → IsSound s (create_job c.codec o job r).1
  unfolding apply
  create_job-IsSound o job s r h = record {
    valid = apply-IsValid c.codec o r h.valid (creates_job job) tt;
    bounded = h.bounded;
    stored =
        All-Kept r (create_job c.codec o job r).1 s.queue
          (apply-IsStored c.codec o (creates_job job) r) h.stored;
  }

  create_job-IsStored :
      (o : Outcome) (job : Job) (r : Repository) → IsStored (create_job c.codec o job r).1 job.id
  unfolding create_job
  create_job-IsStored o job r =
      rw (save-snap c.codec o (record r { snap = _ }), lookup-insert_self job.id job r.snap.jobs)
        refl

  Offer-IsSound :
      (o : Outcome) (s s' : Service) (r r' : Repository) (res : Result Jobs.Error Job)
      → IsSound s r
      → Offer c o s r res s' r'
      → IsSound s' r'
  Offer-IsSound o s s' r r' res h (refused e) = h
  Offer-IsSound o s s' r r' res h (unsent e job q) = create_job-IsSound o job s r h
  Offer-IsSound o s s' r r' res h (accepted job q saved a b room) =
      let after = create_job-IsSound o job s r h in
      record {
        valid = after.valid;
        bounded = omega (arith, length-append s.queue (job.id ∷ []));
        stored = All-append _ s.queue (job.id ∷ []) after.stored (create_job-IsStored o job r, tt);
      }

  pub take_job-IsSound :
      (env : Env) (ids : List Text) (on off : Bool) (w : Loop) (r : Repository)
      → (let s : Service = record { queue = ids; started = on; stopped = off; worker = w } in
          IsSound s r → IsSound (take_job c env s r).0 (take_job c env s r).1)
  take_job-IsSound env [] on off w r h = h
  take_job-IsSound env (id ∷ rest) on off w r h =
      let kept = handle_job-Kept c env id r in
      record {
        valid = kept.0 h.valid;
        bounded = omega (arith, h.bounded);
        stored = All-Kept r (handle_job c env id r) rest kept.1 h.stored.1;
      }

  work-IsSound :
      (env : Env) (ids : List Text) (on off : Bool) (w : Loop) (r : Repository)
      → (let s : Service = record { queue = ids; started = on; stopped = off; worker = w } in
          IsSound s r → IsSound (work c env s r).0 (work c env s r).1)
  unfolding work
  work-IsSound env ids on off not_begun r h = h
  work-IsSound env ids on off serving r h = take_job-IsSound env ids on off serving r h
  work-IsSound env ids on off told_to_end r h = elim (Bool-cases (env.sees_done || is_empty ids)) [
    | inl e ↦ rw e (record { valid = h.valid; bounded = h.bounded; stored = h.stored })
    | inr e ↦ rw e (take_job-IsSound env ids on off told_to_end r h)
  ]
  work-IsSound env ids on off ended r h = h

  -- A change that leaves the channel alone.
  same_queue-IsSound :
      (s s' : Service) (r : Repository) → s'.queue ≡ s.queue → IsSound s r → IsSound s' r
  same_queue-IsSound s s' r e h = record {
    valid = h.valid;
    bounded = rw e h.bounded;
    stored = rw e h.stored;
  }

  start_queue : (s : Service) → (start s).queue ≡ s.queue
  unfolding start
  start_queue s = elim (Bool-cases s.started) [
    | inl e ↦ rw (start, e) refl
    | inr e ↦ rw (start, e) refl
  ]

  stop_queue : (s : Service) → (stop s).queue ≡ s.queue
  unfolding stop
  stop_queue s = elim (Bool-cases s.stopped) [
    | inl e ↦ rw (stop, e) refl
    | inr e ↦ rw (stop, e) refl
  ]

  -- In every history of the service beside the other writers of its store, the state stays valid,
  -- the channel stays within its size, and every identifier in it is that of a stored job.
  pub Reachable-IsSound : (s : Service) (r : Repository) → Reachable c s r → IsSound s r
  unfolding new_service
  Reachable-IsSound s r (fresh _ v) = record { valid = v; bounded = omega arith; stored = tt }
  Reachable-IsSound s r (starts {s = before} h) =
      same_queue-IsSound before s r (start_queue before) (Reachable-IsSound before r h)
  Reachable-IsSound s r (stops {s = before} h) =
      same_queue-IsSound before s r (stop_queue before) (Reachable-IsSound before r h)
  Reachable-IsSound s r (enqueues {s = before} {r = r₀} h o now how id by kind payload res e) =
      Offer-IsSound o before s r₀ r res (Reachable-IsSound before r₀ h)
        (enqueue-Offer c o before r₀ now how id by kind payload res s r e)
  Reachable-IsSound s r (works {s = before} {r = r₀} h env) =
      work-IsSound env before.queue before.started before.stopped before.worker r₀
        (Reachable-IsSound before r₀ h)
  Reachable-IsSound s r (calls {r = r₀} h o call ad) =
      let i = Reachable-IsSound s r₀ h in
      record {
        valid = apply-IsValid c.codec o r₀ i.valid call ad;
        bounded = i.bounded;
        stored =
            All-Kept r₀ (apply c.codec o call r₀).1 s.queue (apply-IsStored c.codec o call r₀)
              i.stored;
      }

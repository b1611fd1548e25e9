-- ===== src/Jobs/Drain.antt =====
-- The worker catches up: as many rounds as the channel is long empty it.
use nusantara_panel.Base.{
  Text, Bool, List, [], ◌∷◌, ◌≡◌, ◌≢◌, ◌≤◌, refl, sym, ◌∙◌, length, All, ok, err, some, none,
  Option, Result, inl, inr, Option-cases, Bool-cases, arith, Unicode, text_eq, text_eq_iff,
  ne_of_text_eq, subst,
}
use nusantara_panel.Base.Table.{lookup}
use nusantara_panel.Jobs.History.{IsSound, take_job-IsSound}
use nusantara_panel.Store.{Error, Job, job_status_queued}
use nusantara_panel.Store.FileDb.Snapshot.{Repository}
use nusantara_panel.Store.FileDb.Invariant.{IsValid}
use nusantara_panel.Jobs.{
  Config, Env, Service, Loop, not_begun, serving, told_to_end, ended, work, handle_job,
}
use nusantara_panel.Jobs.Kept.{IsStored}
use nusantara_panel.Jobs.Worker.{left, handle_job-jobs}

-- The job of the identifier is stored, and is queued no more.
abbrev pub IsTaken : Repository → Text → Type 0
IsTaken r id = (job : Job) × (lookup id r.snap.jobs ≡ some job) × (job.status ≢ job_status_queued)

IsStored-IsTaken : (r : Repository) (id : Text) → IsTaken r id → IsStored r id
IsStored-IsTaken r id (job, e, ne) = rw e refl

module _ ⦃u : Unicode⦄ (c : Config) where
  -- Rounds of the worker
  abbrev pub rounds : List Env → Service → Repository → Service × Repository
  rounds [] s r = (s, r)
  rounds (env ∷ envs) s r = let (s', r') = work c env s r in rounds envs s' r'

  left_not_queued :
      (env : Env) (job : Job) (res : Result Error (Unit {0})) (cause : Option Text)
      → (left env job res cause).status ≢ job_status_queued
  unfolding text_eq
  left_not_queued env job (err e) cause = ne_of_text_eq _ _ refl
  left_not_queued env job (ok _) none = ne_of_text_eq _ _ refl
  left_not_queued env job (ok _) (some cause) = ne_of_text_eq _ _ refl

  -- The stored job under an identifier, with its own.
  stored_job :
      (id : Text) (r : Repository)
      → IsValid r.snap
      → IsStored r id
      → (job : Job) × (lookup job.id r.snap.jobs ≡ some job) × (job.id ≡ id)
  stored_job id r v h = elim (Option-cases (lookup id r.snap.jobs)) [
    | inl e ↦ absurd (cc (rw e at h))
    | inr (job, e) ↦
        let same = v.jobs_by_id id job e in
        (job, subst (λ i. lookup i r.snap.jobs ≡ some job) (sym same) e, same)
  ]

  handled-IsTaken :
      (env : Env) (id : Text) (r : Repository)
      → IsValid r.snap
      → IsStored r id
      → IsTaken (handle_job c env id r) id
  handled-IsTaken env id r v h =
      let (job, e, same) = stored_job id r v h in
      subst (λ i. IsTaken (handle_job c env i r) i) same
        (_, (handle_job-jobs c env job job.id r e).0, left_not_queued env job _ _)

  kept-IsTaken :
      (env : Env) (id other : Text) (r : Repository)
      → IsValid r.snap
      → IsStored r other
      → IsTaken r id
      → IsTaken (handle_job c env other r) id
  kept-IsTaken env id other r v h (old, at, ne) = elim (Bool-cases (text_eq other id)) [
    | inl same ↦
        subst (λ i. IsTaken (handle_job c env other r) i) ((text_eq_iff other id).0 same)
          (handled-IsTaken env other r v h)
    | inr differs ↦
        let (job, e, same) = stored_job other r v h in
        subst (λ i. IsTaken (handle_job c env i r) id) same
          (
            old,
            (handle_job-jobs c env job id r e).1
                  (λ eq. ne_of_text_eq other id differs (sym same ∙ eq))
                ∙ at,
            ne,
          )
  ]

  next-IsSound :
      (env : Env) (id : Text) (rest : List Text) (on off : Bool) (r : Repository)
      → IsSound (record { queue = id ∷ rest; started = on; stopped = off; worker = serving }) r
      → IsSound
          (record { queue = rest; started = on; stopped = off; worker = serving })
          (handle_job c env id r)
  unfolding work
  next-IsSound env id rest on off r h = take_job-IsSound c env (id ∷ rest) on off serving r h

  rounds-IsTaken :
      (envs : List Env) (ids : List Text) (on off : Bool) (r : Repository) (id : Text)
      → IsSound (record { queue = ids; started = on; stopped = off; worker = serving }) r
      → IsTaken r id
      → IsTaken
          (rounds envs (record { queue = ids; started = on; stopped = off; worker = serving }) r).1
          id
  unfolding work
  rounds-IsTaken [] ids on off r id h t = t
  rounds-IsTaken (env ∷ envs) [] on off r id h t = rounds-IsTaken envs [] on off r id h t
  rounds-IsTaken (env ∷ envs) (next ∷ rest) on off r id h t =
      rounds-IsTaken envs rest on off (handle_job c env next r) id
        (next-IsSound env next rest on off r h) (kept-IsTaken env id next r h.valid h.stored.0 t)

  rounds-drain_from :
      (envs : List Env) (ids : List Text) (on off : Bool) (r : Repository)
      → IsSound (record { queue = ids; started = on; stopped = off; worker = serving }) r
      → length ids ≤ length envs
      → let (t, q) =
          rounds envs (record { queue = ids; started = on; stopped = off; worker = serving }) r in
        (t.queue ≡ []) × All (IsTaken q) ids
  unfolding work
  rounds-drain_from [] [] on off r h n = (refl, tt)
  rounds-drain_from [] (id ∷ ids) on off r h n = absurd (omega arith)
  rounds-drain_from (env ∷ envs) [] on off r h n =
      rounds-drain_from envs [] on off r h (omega arith)
  rounds-drain_from (env ∷ envs) (id ∷ ids) on off r h n =
      let sound = next-IsSound env id ids on off r h in
      let (empty, all_taken) =
        rounds-drain_from envs ids on off (handle_job c env id r) sound (omega arith) in
      (
        empty,
        (
          rounds-IsTaken envs ids on off (handle_job c env id r) id sound
              (handled-IsTaken env id r h.valid h.stored.0),
          all_taken,
        ),
      )

  rounds-drain_serving :
      (envs : List Env) (ids : List Text) (on off : Bool) (w : Loop) (r : Repository)
      → w ≡ serving
      → (let s : Service = record { queue = ids; started = on; stopped = off; worker = w } in
          IsSound s r
          → length ids ≤ length envs
          → ((rounds envs s r).0.queue ≡ []) × All (IsTaken (rounds envs s r).1) ids)
  rounds-drain_serving envs ids on off not_begun r e h n = absurd (cc e)
  rounds-drain_serving envs ids on off serving r e h n = rounds-drain_from envs ids on off r h n
  rounds-drain_serving envs ids on off told_to_end r e h n = absurd (cc e)
  rounds-drain_serving envs ids on off ended r e h n = absurd (cc e)

  -- From a sound state in which the worker is in its loop and is not told to end, as many rounds of
  -- the worker as the channel is long leave it empty, and every job that was in it is stored with a
  -- status other than queued, however the provisioner and the saves go.
  pub rounds-drain :
      (envs : List Env) (s : Service) (r : Repository)
      → s.worker ≡ serving
      → IsSound s r
      → length s.queue ≤ length envs
      → ((rounds envs s r).0.queue ≡ []) × All (IsTaken (rounds envs s r).1) s.queue
  rounds-drain envs s r on h n =
      rounds-drain_serving envs s.queue s.started s.stopped s.worker r on h n

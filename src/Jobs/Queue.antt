-- ===== src/Jobs/Queue.antt =====
-- How an attempt to enqueue a job ends.
use nusantara_panel.Base.{
  ap, ◌≡◌, ◌<◌, true, false, [], ◌∷◌, ◌++◌, some, none, ok, err, Result, arith, length,
  Result-cases, Bool-cases, inl, inr, Text, Option, subst, sym, refl, ltb, ltb→lt,
}
use nusantara_panel.Base.Table.{Table}
use nusantara_panel.Store
use nusantara_panel.Store.{Job, Time, job_status_queued}
use nusantara_panel.Store.FileDb.Snapshot.{Outcome, Repository}
use nusantara_panel.Store.FileDb.Methods.{create_job}
use nusantara_panel.Jobs
use nusantara_panel.Jobs.{
  handle_job, cancelled, send, create_and_send, sent, not_started, stopped_already, marshal_fails,
  sends, cancelled, store_error, context_done, Config, Env, Service, Select, queue_size,
  new_service, start, stop, enqueue, work,
}

-- How `enqueue` may end: refused before it stores a job; with a job that is stored and not sent; or
-- with one that is stored and sent.
pub data Offer (c : Config) (o : Outcome) (s : Service) (r : Repository)
    : Result Jobs.Error Job → Service → Repository → Type 0 where
  refused : (e : Jobs.Error) → Offer c o s r (err e) s r
  unsent :
      (e : Jobs.Error) (job : Job)
      → job.status ≡ job_status_queued
      → Offer c o s r (err e) s (create_job c.codec o job r).1
  accepted :
      (job : Job)
      → job.status ≡ job_status_queued
      → (create_job c.codec o job r).0 ≡ ok tt
      → s.started ≡ true
      → s.stopped ≡ false
      → length s.queue < queue_size
      → Offer c o s r
          (ok job)
          (record s { queue = s.queue ++ job.id ∷ [] })
          (create_job c.codec o job r).1

abbrev OffersIf :
    Config
    → Outcome
    → Service
    → Repository
    → Option (Result Jobs.Error Job × Service × Repository)
    → Type 0
OffersIf c o s r none = Unit
OffersIf c o s r (some (res, s', r')) = Offer c o s r res s' r'

module _ (c : Config) (o : Outcome) (s : Service) (r : Repository) where
  sent-Offer :
      (how : Select) (job : Job) (p : Result Store.Error (Unit {0}) × Repository)
      → create_job c.codec o job r ≡ p
      → job.status ≡ job_status_queued
      → s.started ≡ true
      → s.stopped ≡ false
      → OffersIf c o s r (sent how job s p)
  unfolding send
  sent-Offer how job (err e, r') h q a b =
      subst (λ x. Offer c o s r (err (store_error e)) s x) (ap (λ p. p.1) h) (unsent _ job q)
  sent-Offer (cancelled cause) job (ok _, r') h q a b =
      subst (λ x. Offer c o s r (err (context_done cause)) s x) (ap (λ p. p.1) h) (unsent _ job q)
  sent-Offer sends job (ok _, r') h q a b = elim (Bool-cases (ltb (length s.queue) queue_size)) [
    | inr full ↦ rw full tt
    | inl free ↦ rw free (
        subst (λ x. Offer c o s r (ok job) (record s { queue = s.queue ++ job.id ∷ [] }) x)
          (ap (λ p. p.1) h)
          (accepted job q (ap (λ p. p.0) h) a b (ltb→lt (length s.queue) queue_size free)))
  ]

  create_and_send-OffersIf :
      (now : Time) (how : Select) (id : Result Text Text) (by kind body : Text)
      → s.started ≡ true
      → s.stopped ≡ false
      → OffersIf c o s r (create_and_send c o now how by kind body id s r)
  unfolding create_and_send
  create_and_send-OffersIf now how (err cause) by kind body a b = refused _
  create_and_send-OffersIf now how (ok own) by kind body a b = sent-Offer how _ _ refl refl a b

  enqueue_open :
      (now : Time) (how : Select) (id : Result Text Text) (by kind body : Text)
      (payload : Table Text)
      → s.started ≡ true
      → s.stopped ≡ false
      → c.payloads.encode payload ≡ ok body
      → enqueue c o now how id by kind payload s r ≡ create_and_send c o now how by kind body id s r
  unfolding enqueue
  enqueue_open now how id by kind body payload a b e = ground arith

  refused-OffersIf :
      (e : Jobs.Error) (x : Option (Result Jobs.Error Job × Service × Repository))
      → x ≡ some (err e, s, r)
      → OffersIf c o s r x
  refused-OffersIf e x h = subst (λ y. OffersIf c o s r y) (sym h) (refused e)

  enqueue-OffersIf :
      (now : Time) (how : Select) (id : Result Text Text) (by kind : Text) (payload : Table Text)
      → OffersIf c o s r (enqueue c o now how id by kind payload s r)
  unfolding enqueue
  enqueue-OffersIf now how id by kind payload = elim (Bool-cases s.started) [
    | inr off ↦ refused-OffersIf not_started _ (ground arith)
    | inl on ↦ elim (Bool-cases s.stopped) [
      | inl ended ↦ refused-OffersIf stopped_already _ (ground arith)
      | inr up ↦ elim (Result-cases (c.payloads.encode payload)) [
        | inr (cause, f) ↦ refused-OffersIf (marshal_fails cause) _ (ground arith)
        | inl (body, f) ↦
            subst (λ x. OffersIf c o s r x)
              (sym (enqueue_open now how id by kind body payload on up f))
              (create_and_send-OffersIf now how id by kind body on up)
      ]
    ]
  ]

  -- An attempt to enqueue that returns was refused with nothing changed; or it stored a queued job
  -- and reports an error; or the service was up and the channel had room, the queued job was saved,
  -- and its identifier stands at the end of the channel.
  pub enqueue-Offer :
      (now : Time) (how : Select) (id : Result Text Text) (by kind : Text) (payload : Table Text)
      (res : Result Jobs.Error Job) (s' : Service) (r' : Repository)
      → enqueue c o now how id by kind payload s r ≡ some (res, s', r')
      → Offer c o s r res s' r'
  enqueue-Offer now how id by kind payload res s' r' h =
      subst (λ x. OffersIf c o s r x) h (enqueue-OffersIf now how id by kind payload)

-- ===== src/Store/FileDb/Invariant/Steps.antt =====
-- Each method keeps the state valid, and so does any history of calls.
use nusantara_panel.Base.{
  List, [], ◌∷◌, ◌+◌, ◌^◌, ◌<◌, Text, ◌≡◌, refl, Option-cases, inl, inr, none, arith, Unicode,
  to_lower, Option, Bool-cases, ◌==◌,
}
use nusantara_panel.Base.Table.{Table, lookup, lookup-nil, insert-Distinct, delete-Distinct}
use nusantara_panel.Store.{Time, User, Session, Site, Job, AuditLog}
use nusantara_panel.Store.FileDb.Snapshot.{
  Snapshot, Repository, Codec, Outcome, new_snapshot, save, schema_version,
}
use nusantara_panel.Store.FileDb.Indexes.{
  Indexed-nil, Indexed-insert, Indexed-replace, Indexed-delete,
}
use nusantara_panel.Store.FileDb.Rebuild.{username_key, domain_key}
use nusantara_panel.Store.FileDb.Methods.{
  commit, migrate, create_user, update_user_password, create_session, delete_session_by_token_hash,
  create_site, update_site_status, delete_site, create_job, update_job, create_audit_log, close,
}
use nusantara_panel.Store.FileDb.Calls.{
  Call, migrates, closes, creates_user, updates_password, creates_session, deletes_session,
  creates_site, sets_site_status, deletes_site, creates_job, updates_job, records_audit, apply,
  IsAdmissible,
}
use nusantara_panel.Store.FileDb.Invariant.{
  save-snap, IsValid, Ascending-append, ById-insert, ById-delete, with_users, with_sites, with_jobs,
  with_rest,
}

module _ ⦃u : Unicode⦄ (codec : Codec) (o : Outcome) (r : Repository) (v : IsValid r.snap) where
  abbrev s : Snapshot
  s = r.snap

  commit-IsValid : (t : Snapshot) → IsValid t → IsValid (commit codec o t r).1.snap
  commit-IsValid t w = rw (save-snap codec o (record r { snap = t })) w

  save-IsValid : IsValid (save codec o r).1.snap
  save-IsValid = rw (save-snap codec o r) v

  sessions-IsValid :
      (sessions : Table Session)
      → IsValid (commit codec o (record r.snap { sessions = sessions }) r).1.snap
  sessions-IsValid sessions =
      commit-IsValid _
        (with_rest s v s.schema_version sessions s.audit_logs _ v.current_version v.audit_numbered)

  migrate-IsValid : IsValid (migrate codec o r).1.snap
  unfolding migrate
  migrate-IsValid = elim (Bool-cases (s.schema_version == 0)) [
    | inl e ↦ rw e (
        commit-IsValid _
          (with_rest s v schema_version s.sessions s.audit_logs _ refl v.audit_numbered))
    | inr e ↦ rw e save-IsValid
  ]

  create_user-IsValid :
      (user : User) → lookup user.id s.users ≡ none → IsValid (create_user codec o user r).1.snap
  unfolding create_user
  create_user-IsValid user fresh =
      elim (Option-cases (lookup (to_lower user.username) s.username_index)) [
        | inr (id, e) ↦ rw e v
        | inl e ↦ rw e (
            commit-IsValid _ (
              with_users s v _ _ (insert-Distinct user.id user s.users v.users_distinct)
                (ById-insert (λ x. x.id) s.users v.users_by_id user.id user refl)
                (Indexed-insert username_key s.users s.username_index v.users_indexed user.id user
                  fresh e)))
      ]

  update_user_password-IsValid :
      (id hash : Text) (at : Time) → IsValid (update_user_password codec o id hash at r).1.snap
  unfolding update_user_password
  update_user_password-IsValid id hash at = elim (Option-cases (lookup id s.users)) [
    | inl e ↦ rw (e, update_user_password) v
    | inr (user, e) ↦
        rw (e, update_user_password)
          (commit-IsValid _ (
            with_users s v _ _ (insert-Distinct id _ s.users v.users_distinct)
              (ById-insert (λ x. x.id) s.users v.users_by_id id _ (v.users_by_id id user e))
              (Indexed-replace username_key s.users s.username_index v.users_indexed id user _ e
                refl)))
  ]

  create_site-IsValid :
      (site : Site) → lookup site.id s.sites ≡ none → IsValid (create_site codec o site r).1.snap
  unfolding create_site
  create_site-IsValid site fresh =
      elim (Option-cases (lookup (to_lower site.domain) s.domain_index)) [
        | inr (id, e) ↦ rw e v
        | inl e ↦ rw e (
            commit-IsValid _ (
              with_sites s v _ _ (insert-Distinct site.id site s.sites v.sites_distinct)
                (ById-insert (λ x. x.id) s.sites v.sites_by_id site.id site refl)
                (Indexed-insert domain_key s.sites s.domain_index v.sites_indexed site.id site fresh
                  e)))
      ]

  update_site_status-IsValid :
      (now : Time) (id status : Text) → IsValid (update_site_status codec o now id status r).1.snap
  unfolding update_site_status
  update_site_status-IsValid now id status = elim (Option-cases (lookup id s.sites)) [
    | inl e ↦ rw (e, update_site_status) v
    | inr (site, e) ↦
        rw (e, update_site_status)
          (commit-IsValid _ (
            with_sites s v _ _ (insert-Distinct id _ s.sites v.sites_distinct)
              (ById-insert (λ x. x.id) s.sites v.sites_by_id id _ (v.sites_by_id id site e))
              (Indexed-replace domain_key s.sites s.domain_index v.sites_indexed id site _ e refl)))
  ]

  delete_site-IsValid : (id : Text) → IsValid (delete_site codec o id r).1.snap
  unfolding delete_site
  delete_site-IsValid id = elim (Option-cases (lookup id s.sites)) [
    | inl e ↦ rw (e, delete_site) v
    | inr (site, e) ↦
        rw (e, delete_site)
          (commit-IsValid _ (
            with_sites s v _ _ (delete-Distinct id s.sites v.sites_distinct)
              (ById-delete (λ x. x.id) s.sites v.sites_by_id id)
              (Indexed-delete domain_key s.sites s.domain_index v.sites_indexed id site e)))
  ]

  create_job-IsValid : (job : Job) → IsValid (create_job codec o job r).1.snap
  unfolding create_job
  create_job-IsValid job = commit-IsValid _ (
      with_jobs s v _ (insert-Distinct job.id job s.jobs v.jobs_distinct)
        (ById-insert (λ x. x.id) s.jobs v.jobs_by_id job.id job refl))

  update_job-IsValid :
      (id status error : Text) (start end : Option Time)
      → IsValid (update_job codec o id status error start end r).1.snap
  unfolding update_job
  update_job-IsValid id status error start end = elim (Option-cases (lookup id s.jobs)) [
    | inl e ↦ rw (e, update_job) v
    | inr (job, e) ↦
        rw (e, update_job)
          (commit-IsValid _ (
            with_jobs s v _ (insert-Distinct id _ s.jobs v.jobs_distinct)
              (ById-insert (λ x. x.id) s.jobs v.jobs_by_id id _ (v.jobs_by_id id job e))))
  ]

  create_audit_log-IsValid :
      (entry : AuditLog)
      → s.audit_sequence + 1 < 2 ^ 63
      → IsValid (create_audit_log codec o entry r).1.snap
  unfolding create_audit_log
  create_audit_log-IsValid entry h = commit-IsValid _ (
      with_rest s v s.schema_version s.sessions _ _ v.current_version
        (Ascending-append 0 s.audit_logs s.audit_sequence _ v.audit_numbered (omega arith)))

  -- Every call keeps the state valid, whether its save succeeds or fails.
  pub apply-IsValid : (c : Call) → IsAdmissible c s → IsValid (apply codec o c r).1.snap
  unfolding apply close create_session delete_session_by_token_hash
  apply-IsValid migrates h = migrate-IsValid
  apply-IsValid closes h = save-IsValid
  apply-IsValid (creates_user user) h = create_user-IsValid user h
  apply-IsValid (updates_password id hash at) h = update_user_password-IsValid id hash at
  apply-IsValid (creates_session session) h = sessions-IsValid _
  apply-IsValid (deletes_session hash) h = sessions-IsValid _
  apply-IsValid (creates_site site) h = create_site-IsValid site h
  apply-IsValid (sets_site_status now id status) h = update_site_status-IsValid now id status
  apply-IsValid (deletes_site id) h = delete_site-IsValid id
  apply-IsValid (creates_job job) h = create_job-IsValid job
  apply-IsValid (updates_job id status error start end) h =
      update_job-IsValid id status error start end
  apply-IsValid (records_audit entry) h = create_audit_log-IsValid entry h

module _ ⦃u : Unicode⦄ (codec : Codec) where
  -- A history: calls with the outcomes of their saves.
  abbrev pub run : List (Outcome × Call) → Repository → Repository
  run [] r = r
  run ((o, c) ∷ cs) r = run cs (apply codec o c r).1

  -- Every call of the history is admissible where it is made.
  abbrev pub AreAdmissible : List (Outcome × Call) → Repository → Type 0
  AreAdmissible [] r = Unit
  AreAdmissible ((o, c) ∷ cs) r = IsAdmissible c r.snap × AreAdmissible cs (apply codec o c r).1

  pub run-IsValid :
      (cs : List (Outcome × Call)) (r : Repository)
      → IsValid r.snap
      → AreAdmissible cs r
      → IsValid (run cs r).snap
  run-IsValid [] r v h = v
  run-IsValid ((o, c) ∷ cs) r v h =
      run-IsValid cs (apply codec o c r).1 (apply-IsValid codec o r v c h.0) h.1

module _ ⦃u : Unicode⦄ where
  -- An empty database is valid.
  pub new_snapshot-IsValid : IsValid new_snapshot
  new_snapshot-IsValid = record {
    current_version = refl;
    users_distinct = tt;
    sites_distinct = tt;
    jobs_distinct = tt;
    users_by_id = λ id v h. absurd (cc (lookup-nil {V = User} id));
    sites_by_id = λ id v h. absurd (cc (lookup-nil {V = Site} id));
    jobs_by_id = λ id v h. absurd (cc (lookup-nil {V = Job} id));
    users_indexed = Indexed-nil username_key;
    sites_indexed = Indexed-nil domain_key;
    audit_numbered = omega arith;
  }

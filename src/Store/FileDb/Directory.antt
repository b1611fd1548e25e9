-- ===== src/Store/FileDb/Directory.antt =====
-- The accounts of the repository as an abstract map from names in lower case to users, without the
-- two tables and their identifiers, and the histories of calls on it.
use nusantara_panel.Base.{
  List, [], ◌∷◌, Text, ◌≡◌, refl, ◌∙◌, Bool-cases, Option-cases, inl, inr, none, some, arith,
  Unicode, to_lower, Option, text_eq, text_eq_iff, is_some, if◌then◌else◌, text_eq_self,
  text_eq-false, ne_of_text_eq, sym, ap, ◌==◌,
}
use nusantara_panel.Base.Table.{
  Table, lookup, insert, lookup-insert, lookup-insert_self, lookup-insert_ne,
}
use nusantara_panel.Store.{Time, User, Site}
use nusantara_panel.Store.FileDb.Snapshot.{Snapshot, Repository, Codec, Outcome}
use nusantara_panel.Store.FileDb.Methods.{
  create_audit_log, update_job, create_job, delete_site, update_site_status, create_site,
  delete_session_by_token_hash, create_session, close, migrate, commit, create_user,
  update_user_password, create_session, delete_session_by_token_hash, create_site, delete_site,
  update_site_status, create_job, update_job, create_audit_log, close, migrate,
  get_user_by_username, or_not_found,
}
use nusantara_panel.Store.FileDb.Calls.{
  Call, migrates, closes, creates_user, updates_password, creates_session, deletes_session,
  creates_site, sets_site_status, deletes_site, creates_job, updates_job, records_audit, apply,
  IsAdmissible,
}
use nusantara_panel.Store.FileDb.Invariant.{save-snap, IsValid}
use nusantara_panel.Store.FileDb.Invariant.Steps.{run, AreAdmissible, apply-IsValid}

abbrev pub Directory : Type 0
Directory = Text → Option User

abbrev at_id : Table User → Option Text → Option User
at_id users none = none
at_id users (some id) = lookup id users

-- The directory that a snapshot stands for.
abbrev pub view : Snapshot → Directory
view s name = at_id s.users (lookup name s.username_index)

abbrev rewritten : Text → Text → Time → User → User
rewritten id hash at user =
    if text_eq user.id id then record user { password_hash = hash; updated_at = at } else user

abbrev changed : (User → User) → Option User → Option User
changed f none = none
changed f (some user) = some (f user)

module _ ⦃u : Unicode⦄ where
  -- A call on the abstract map: a new user takes its name if nobody has it, and a new password goes
  -- to the user of the identifier.
  abbrev pub direct : Call → Directory → Directory
  direct (creates_user user) d name =
      let key = to_lower user.username in
      if is_some (d key) then d name else if text_eq key name then some user else d name
  direct (updates_password id hash at) d name = changed (rewritten id hash at) (d name)
  direct _ d name = d name

  abbrev pub direct_all {ℓ} : {O : Type ℓ} → List (O × Call) → Directory → Directory
  direct_all [] d = d
  direct_all ((o, call) ∷ calls) d = direct_all calls (direct call d)

get_user_by_username-view :
    ⦃u : Unicode⦄
    → (name : Text) (r : Repository)
    → get_user_by_username name r ≡ or_not_found (view r.snap (to_lower name))
unfolding get_user_by_username
get_user_by_username-view name r =
    elim (Option-cases (lookup (to_lower name) r.snap.username_index)) [
      | inl e ↦ rw (e, get_user_by_username) refl
      | inr (id, e) ↦ rw (e, get_user_by_username) refl
    ]

module _ ⦃u : Unicode⦄ (codec : Codec) (o : Outcome) (r : Repository) (v : IsValid r.snap)
    (name : Text) where
  commit-view : (t : Snapshot) → view (commit codec o t r).1.snap name ≡ view t name
  commit-view t = rw (save-snap codec o (record r { snap = t })) refl

  inserted-view :
      (user : User)
      → lookup user.id r.snap.users ≡ none
      → lookup (to_lower user.username) r.snap.username_index ≡ none
      → at_id
          (insert user.id user r.snap.users)
          (lookup name (insert (to_lower user.username) user.id r.snap.username_index))
        ≡ (if text_eq (to_lower user.username) name then some user else view r.snap name)
  inserted-view user fresh e = elim (Bool-cases (text_eq (to_lower user.username) name)) [
    | inl same ↦
        rw (lookup-insert (to_lower user.username) name user.id r.snap.username_index, same)
          (lookup-insert_self user.id user r.snap.users)
    | inr differs ↦
        rw (lookup-insert (to_lower user.username) name user.id r.snap.username_index, differs)
          (elim (Option-cases (lookup name r.snap.username_index)) [
            | inl e' ↦ rw e' refl
            | inr (id, e') ↦
                let (old, p, q) = v.users_indexed.backed name id e' in
                rw e'
                  (lookup-insert_ne user.id id user r.snap.users (λ h. absurd (cc (fresh, p, h))))
          ])
  ]

  create_user-view :
      (user : User)
      → lookup user.id r.snap.users ≡ none
      → view (create_user codec o user r).1.snap name
        ≡ direct (creates_user user) (view r.snap) name
  unfolding create_user
  create_user-view user fresh =
      elim (Option-cases (lookup (to_lower user.username) r.snap.username_index)) [
        | inr (id, e) ↦ let (old, p, q) = v.users_indexed.backed _ id e in rw e (rw p refl)
        | inl e ↦ rw e (commit-view _ ∙ inserted-view user fresh e)
      ]

  changed-view :
      (id hash : Text) (at : Time) (user : User)
      → lookup id r.snap.users ≡ some user
      → at_id
          (insert id (record user { password_hash = hash; updated_at = at }) r.snap.users)
          (lookup name r.snap.username_index)
        ≡ changed (rewritten id hash at) (view r.snap name)
  changed-view id hash at user e = elim (Option-cases (lookup name r.snap.username_index)) [
    | inl e' ↦ rw e' refl
    | inr (found, e') ↦ rw e' (elim (Bool-cases (text_eq id found)) [
      | inl same ↦
          rw
            (
              ← (text_eq_iff id found).0 same,
              lookup-insert_self id (record user { password_hash = hash; updated_at = at })
                  r.snap.users,
              e,
              v.users_by_id id user e,
              text_eq_self id,
            )
            refl
      | inr differs ↦
          let (old, p, q) = v.users_indexed.backed name found e' in
          rw
            (
              lookup-insert id found (record user { password_hash = hash; updated_at = at })
                  r.snap.users,
              differs,
              p,
              v.users_by_id found old p,
              text_eq-false found id (λ h. ne_of_text_eq id found differs (sym h)),
            )
            refl
    ])
  ]

  same-view :
      (id hash : Text) (at : Time)
      → lookup id r.snap.users ≡ none
      → view r.snap name ≡ changed (rewritten id hash at) (view r.snap name)
  same-view id hash at e = elim (Option-cases (lookup name r.snap.username_index)) [
    | inl e' ↦ rw e' refl
    | inr (found, e') ↦
        let (old, p, q) = v.users_indexed.backed name found e' in
        rw (e', p, v.users_by_id found old p) (ground (arith, text_eq_iff found id, e, p))
  ]

  update_user_password-view :
      (id hash : Text) (at : Time)
      → view (update_user_password codec o id hash at r).1.snap name
        ≡ direct (updates_password id hash at) (view r.snap) name
  unfolding update_user_password
  update_user_password-view id hash at = elim (Option-cases (lookup id r.snap.users)) [
    | inl e ↦ rw (e, update_user_password) (same-view id hash at e)
    | inr (user, e) ↦ rw (e, update_user_password) (commit-view _ ∙ changed-view id hash at user e)
  ]

  site-view :
      (now : Time) (id status : Text)
      → view (update_site_status codec o now id status r).1.snap name ≡ view r.snap name
  unfolding update_site_status
  site-view now id status = elim (Option-cases (lookup id r.snap.sites)) [
    | inl e ↦ rw (e, update_site_status) refl
    | inr (site, e) ↦ rw (e, update_site_status) (commit-view _)
  ]

  deleted-view : (id : Text) → view (delete_site codec o id r).1.snap name ≡ view r.snap name
  unfolding delete_site
  deleted-view id = elim (Option-cases (lookup id r.snap.sites)) [
    | inl e ↦ rw (e, delete_site) refl
    | inr (site, e) ↦ rw (e, delete_site) (commit-view _)
  ]

  job-view :
      (id status error : Text) (start end : Option Time)
      → view (update_job codec o id status error start end r).1.snap name ≡ view r.snap name
  unfolding update_job
  job-view id status error start end = elim (Option-cases (lookup id r.snap.jobs)) [
    | inl e ↦ rw (e, update_job) refl
    | inr (job, e) ↦ rw (e, update_job) (commit-view _)
  ]

  created-view : (site : Site) → view (create_site codec o site r).1.snap name ≡ view r.snap name
  unfolding create_site
  created-view site =
      elim (Bool-cases (is_some (lookup (to_lower site.domain) r.snap.domain_index))) [
        | inl e ↦ rw e refl
        | inr e ↦ rw e (commit-view _)
      ]

  migrated-view : view (migrate codec o r).1.snap name ≡ view r.snap name
  unfolding migrate
  migrated-view = elim (Bool-cases (r.snap.schema_version == 0)) [
    | inl e ↦ rw e (commit-view _)
    | inr e ↦ rw e (rw (save-snap codec o r) refl)
  ]

  apply-view :
      (c : Call)
      → IsAdmissible c r.snap
      → view (apply codec o c r).1.snap name ≡ direct c (view r.snap) name
  unfolding apply close create_session delete_session_by_token_hash create_job create_audit_log
  apply-view migrates h = migrated-view
  apply-view closes h = rw (save-snap codec o r) refl
  apply-view (creates_user user) h = create_user-view user h
  apply-view (updates_password id hash at) h = update_user_password-view id hash at
  apply-view (creates_session session) h = commit-view _
  apply-view (deletes_session hash) h = commit-view _
  apply-view (creates_site site) h = created-view site
  apply-view (sets_site_status now id status) h = site-view now id status
  apply-view (deletes_site id) h = deleted-view id
  apply-view (creates_job job) h = commit-view _
  apply-view (updates_job id status error start end) h = job-view id status error start end
  apply-view (records_audit entry) h = commit-view _

module _ ⦃u : Unicode⦄ (codec : Codec) where
  run-view :
      (cs : List (Outcome × Call)) (r : Repository)
      → IsValid r.snap
      → AreAdmissible codec cs r
      → view (run codec cs r).snap ≡ direct_all cs (view r.snap)
  run-view [] r v h = refl
  run-view ((o, c) ∷ cs) r v h =
      let now : view (apply codec o c r).1.snap ≡ direct c (view r.snap) =
        λ i name. apply-view codec o r v name c h.0 i in
      run-view cs (apply codec o c r).1 (apply-IsValid codec o r v c h.0) h.1
      ∙ ap (direct_all cs) now

  -- The accounts refine the abstract map: after any history of admissible calls on a valid state,
  -- with saves that succeed or fail, the search of a user by name answers what the map of the
  -- beginning, run through the same history, has under the name in lower case.
  pub run-refines :
      (cs : List (Outcome × Call)) (r : Repository) (name : Text)
      → IsValid r.snap
      → AreAdmissible codec cs r
      → get_user_by_username name (run codec cs r)
        ≡ or_not_found (direct_all cs (view r.snap) (to_lower name))
  run-refines cs r name v h =
      get_user_by_username-view name (run codec cs r)
      ∙ ap (λ d. or_not_found (d (to_lower name))) (run-view cs r v h)

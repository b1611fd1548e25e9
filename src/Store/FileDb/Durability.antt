-- ===== src/Store/FileDb/Durability.antt =====
-- What the file on the disk holds after a call, and what a restart reads back from it.
use nusantara_panel.Base.{
  Result-cases, ◌==◌, Text, ◌≡◌, refl, ◌∙◌, Option-cases, Bool-cases, inl, inr, some, true, arith,
  Result, ok, err, Unicode, to_lower,
}
use nusantara_panel.Base.Table.{lookup}
use nusantara_panel.Store.{Error}
use nusantara_panel.Store.FileDb.Snapshot.{
  Snapshot, Repository, Codec, Outcome, saved, write_fails, rename_fails, save, replace_file, load,
  load_text, readable, filled, decoded, rebuild_indexes, schema_version,
}
use nusantara_panel.Store.FileDb.Methods.{
  commit, migrate, create_user, update_user_password, create_session, delete_session_by_token_hash,
  create_site, update_site_status, delete_site, create_job, update_job, create_audit_log, close,
}
use nusantara_panel.Store.FileDb.Indexes.{Indexed-agree, Indexed-unique}
use nusantara_panel.Store.FileDb.Rebuild.{username_key, domain_key, rebuild_indexes-Indexed}
use nusantara_panel.Store.FileDb.Calls.{
  Call, migrates, closes, creates_user, updates_password, creates_session, deletes_session,
  creates_site, sets_site_status, deletes_site, creates_job, updates_job, records_audit, apply,
  IsAdmissible,
}
use nusantara_panel.Store.FileDb.Invariant.Steps.{apply-IsValid}
use nusantara_panel.Store.FileDb.Invariant.{IsValid}

-- The file holds the whole state in memory after a success, and what it held before after an error.
abbrev pub IsAtomic : Codec → Repository → Result Error (Unit {0}) × Repository → Type 0
IsAtomic codec r (ok _, t) =
    (raw : Text) × (codec.encode t.snap ≡ ok raw) × (t.disk.state ≡ some raw)
IsAtomic codec r (err _, t) = t.disk.state ≡ r.disk.state

replace_file-IsAtomic :
    (codec : Codec) (o : Outcome) (raw : Text) (r : Repository)
    → codec.encode r.snap ≡ ok raw
    → IsAtomic codec r (replace_file o raw r)
unfolding replace_file
replace_file-IsAtomic codec saved raw r e = (raw, e, refl)
replace_file-IsAtomic codec (write_fails part cause) raw r e = refl
replace_file-IsAtomic codec (rename_fails cause) raw r e = refl

save-IsAtomic : (codec : Codec) (o : Outcome) (r : Repository) → IsAtomic codec r (save codec o r)
unfolding save
save-IsAtomic codec o r = elim (Result-cases (codec.encode r.snap)) [
  | inl (raw, e) ↦ rw (e, save) (replace_file-IsAtomic codec o raw r e)
  | inr (cause, e) ↦ rw (e, save) refl
]

commit-IsAtomic :
    (codec : Codec) (o : Outcome) (s : Snapshot) (r : Repository)
    → IsAtomic codec r (commit codec o s r)
commit-IsAtomic codec o s r = save-IsAtomic codec o (record r { snap = s })

written :
    (codec : Codec) (r : Repository) (p : Result Error (Unit {0}) × Repository)
    → p.0 ≡ ok tt
    → IsAtomic codec r p
    → (raw : Text) × (codec.encode p.1.snap ≡ ok raw) × (p.1.disk.state ≡ some raw)
written codec r (ok _, t) e a = a
written codec r (err x, t) e a = absurd (cc)

module _ ⦃u : Unicode⦄ where
  -- Each call that writes is atomic towards the file: a call that reports success has the whole
  -- state in memory on the disk, and a call that reports an error leaves the file as it was.
  pub apply-IsAtomic :
      (codec : Codec) (o : Outcome) (c : Call) (r : Repository)
      → IsAtomic codec r (apply codec o c r)
  unfolding apply migrate close create_user update_user_password create_session
      delete_session_by_token_hash create_site update_site_status delete_site create_job update_job
      create_audit_log
  apply-IsAtomic codec o migrates r = elim (Bool-cases (r.snap.schema_version == 0)) [
    | inl e ↦ rw e (commit-IsAtomic codec o _ r)
    | inr e ↦ rw e (save-IsAtomic codec o r)
  ]
  apply-IsAtomic codec o closes r = save-IsAtomic codec o r
  apply-IsAtomic codec o (creates_user user) r =
      elim (Option-cases (lookup (to_lower user.username) r.snap.username_index)) [
        | inl e ↦ rw e (commit-IsAtomic codec o _ r)
        | inr (id, e) ↦ rw e refl
      ]
  apply-IsAtomic codec o (updates_password id hash at) r =
      elim (Option-cases (lookup id r.snap.users)) [
        | inl e ↦ rw (e, update_user_password) refl
        | inr (user, e) ↦ rw (e, update_user_password) (commit-IsAtomic codec o _ r)
      ]
  apply-IsAtomic codec o (creates_session session) r = commit-IsAtomic codec o _ r
  apply-IsAtomic codec o (deletes_session hash) r = commit-IsAtomic codec o _ r
  apply-IsAtomic codec o (creates_site site) r =
      elim (Option-cases (lookup (to_lower site.domain) r.snap.domain_index)) [
        | inl e ↦ rw e (commit-IsAtomic codec o _ r)
        | inr (id, e) ↦ rw e refl
      ]
  apply-IsAtomic codec o (sets_site_status now id status) r =
      elim (Option-cases (lookup id r.snap.sites)) [
        | inl e ↦ rw (e, update_site_status) refl
        | inr (site, e) ↦ rw (e, update_site_status) (commit-IsAtomic codec o _ r)
      ]
  apply-IsAtomic codec o (deletes_site id) r = elim (Option-cases (lookup id r.snap.sites)) [
    | inl e ↦ rw (e, delete_site) refl
    | inr (site, e) ↦ rw (e, delete_site) (commit-IsAtomic codec o _ r)
  ]
  apply-IsAtomic codec o (creates_job job) r = commit-IsAtomic codec o _ r
  apply-IsAtomic codec o (updates_job id status error start end) r =
      elim (Option-cases (lookup id r.snap.jobs)) [
        | inl e ↦ rw (e, update_job) refl
        | inr (job, e) ↦ rw (e, update_job) (commit-IsAtomic codec o _ r)
      ]
  apply-IsAtomic codec o (records_audit entry) r = commit-IsAtomic codec o _ r

  -- Two states that no method of the repository tells apart.
  pub record SameState (s t : Snapshot) : Type 0 where
    pub users : t.users ≡ s.users
    pub sessions : t.sessions ≡ s.sessions
    pub sites : t.sites ≡ s.sites
    pub jobs : t.jobs ≡ s.jobs
    pub audit_logs : t.audit_logs ≡ s.audit_logs
    pub audit_sequence : t.audit_sequence ≡ s.audit_sequence
    pub username_index : (k : Text) → lookup k t.username_index ≡ lookup k s.username_index
    pub domain_index : (k : Text) → lookup k t.domain_index ≡ lookup k s.domain_index

  rebuild_indexes-SameState : (s : Snapshot) → IsValid s → SameState s (rebuild_indexes s)
  unfolding rebuild_indexes
  rebuild_indexes-SameState s v =
      let (iu, is) =
        rebuild_indexes-Indexed s v.users_distinct v.sites_distinct
          (Indexed-unique username_key s.users s.username_index v.users_indexed)
          (Indexed-unique domain_key s.sites s.domain_index v.sites_indexed) in
      record {
        users = refl;
        sessions = refl;
        sites = refl;
        jobs = refl;
        audit_logs = refl;
        audit_sequence = refl;
        username_index = Indexed-agree username_key s.users _ _ iu v.users_indexed;
        domain_index = Indexed-agree domain_key s.sites _ _ is v.sites_indexed;
      }

  filled-decoded : (s : Snapshot) → filled (decoded s) ≡ s
  filled-decoded s = refl

  load_text_encoded :
      (codec : Codec) (raw : Text) (s : Snapshot) (r : Repository)
      → codec.decode raw ≡ ok (decoded s)
      → s.schema_version ≡ schema_version
      → load_text codec raw r ≡ (ok tt, record r { snap = rebuild_indexes s })
  unfolding load_text
  load_text_encoded codec raw s r d e = rw (d, load_text) (rw e refl)

  load_encoded :
      (codec : Codec) (o : Outcome) (raw : Text) (s : Snapshot) (r : Repository)
      → r.disk.state ≡ some raw
      → codec.decode raw ≡ ok (decoded s)
      → s.schema_version ≡ schema_version
      → load codec readable o r ≡ (ok tt, record r { snap = rebuild_indexes s })
  unfolding load
  load_encoded codec o raw s r f d e = ground (arith, load_text_encoded codec raw s r d e)

  -- A call that is admissible on a valid state and reports success is found again after a restart: a
  -- repository opened on the file loads without an error and holds the same state, if the texts are
  -- valid UTF-8.
  pub load-apply :
      (codec : Codec) (o o' : Outcome) (c : Call) (r fresh : Repository)
      → IsValid r.snap
      → IsAdmissible c r.snap
      → codec.plain (apply codec o c r).1.snap ≡ true
      → (apply codec o c r).0 ≡ ok tt
      → fresh.disk.state ≡ (apply codec o c r).1.disk.state
      → ((load codec readable o' fresh).0 ≡ ok tt)
        × SameState (apply codec o c r).1.snap (load codec readable o' fresh).1.snap
  load-apply codec o o' c r fresh v h plain success same =
      let w = apply-IsValid codec o r v c h in
      let (raw, e, f) = written codec r (apply codec o c r) success (apply-IsAtomic codec o c r) in
      rw
        (load_encoded codec o' raw _ fresh (same ∙ f) (codec.decode-encode _ raw plain e)
          w.current_version)
        (refl, rebuild_indexes-SameState _ w)

-- ===== src/Store/FileDb/Invariant.antt =====
-- What holds of the state in memory between two calls, however the saves go.
pub mod Steps
use nusantara_panel.Base.{
  ℕ, ◌+◌, ◌^◌, ◌≤◌, ◌<◌, Text, ◌≡◌, refl, Option-cases, inl, inr, some, none, List, [], ◌∷◌, ◌++◌,
  arith, Unicode, to_lower, Option, Bool-cases, ◌==◌, ok, err, text_eq_iff, text_eq,
}
use nusantara_panel.Base.Table.{
  Table, lookup, insert, delete, lookup-insert, lookup-delete, Distinct, insert-Distinct,
  delete-Distinct,
}
use nusantara_panel.Store.{Time, User, Session, Site, Job, AuditLog, Error}
use nusantara_panel.Store.FileDb.Snapshot.{
  schema_version, Snapshot, Repository, Codec, Outcome, Step, save, replace_file, saved,
  write_fails, rename_fails, new_snapshot, schema_version,
}
use nusantara_panel.Store.FileDb.Indexes.{
  Indexed, Indexed-nil, Indexed-insert, Indexed-replace, Indexed-delete, Indexed-unique,
}
use nusantara_panel.Store.FileDb.Rebuild.{username_key, domain_key}
use nusantara_panel.Store.FileDb.Methods.{
  commit, migrate, create_user, update_user_password, create_session, delete_session_by_token_hash,
  create_site, update_site_status, delete_site, create_job, update_job, create_audit_log, close,
}

-- A save, however it ends, leaves the state in memory alone.
pub save-snap : (codec : Codec) (o : Outcome) (r : Repository) → (save codec o r).1.snap ≡ r.snap
unfolding save replace_file
save-snap codec o r = ground arith

-- The numbers of the entries rise from above `lo` up to `hi`.
abbrev pub Ascending : ℕ → List AuditLog → ℕ → Type 0
Ascending lo [] hi = lo ≤ hi
Ascending lo (e ∷ es) hi = (lo < e.id) × Ascending e.id es hi

Ascending-append :
    (lo : ℕ) (es : List AuditLog) (hi : ℕ) (e : AuditLog)
    → Ascending lo es hi
    → hi < e.id
    → Ascending lo (es ++ e ∷ []) e.id
Ascending-append lo [] hi e a h = omega arith
Ascending-append lo (d ∷ es) hi e a h = (a.0, Ascending-append d.id es hi e a.1 h)

-- Every entry stands under its own identifier.
abbrev pub ById : {V : Type 0} → (V → Text) → Table V → Type 0
ById {V} of m = (id : Text) (v : V) → lookup id m ≡ some v → of v ≡ id

module _ {V : Type 0} (of : V → Text) (m : Table V) (b : ById of m) where
  ById-insert : (id : Text) (v : V) → of v ≡ id → ById of (insert id v m)
  ById-insert id v e id' v' h =
      ground (arith, lookup-insert id id' v m, text_eq_iff id id', b id' v')

  ById-delete : (id : Text) → ById of (delete id m)
  ById-delete id id' v' h = ground (arith, lookup-delete id id' m, text_eq_iff id id', b id' v')

module _ ⦃u : Unicode⦄ where
  pub record IsValid (s : Snapshot) : Type 0 where
    pub current_version : s.schema_version ≡ schema_version
    pub users_distinct : Distinct s.users
    pub sites_distinct : Distinct s.sites
    pub jobs_distinct : Distinct s.jobs
    pub users_by_id : ById (λ user. user.id) s.users
    pub sites_by_id : ById (λ site. site.id) s.sites
    pub jobs_by_id : ById (λ job. job.id) s.jobs
    pub users_indexed : Indexed username_key s.users s.username_index
    pub sites_indexed : Indexed domain_key s.sites s.domain_index
    pub audit_numbered : Ascending 0 s.audit_logs s.audit_sequence

module _ ⦃u : Unicode⦄ (s : Snapshot) (v : IsValid s) where
  with_users :
      (users : Table User) (index : Table Text)
      → Distinct users
      → ById (λ user. user.id) users
      → Indexed username_key users index
      → IsValid (record s { users = users; username_index = index })
  with_users users index d b i = record {
    current_version = v.current_version;
    users_distinct = d;
    sites_distinct = v.sites_distinct;
    jobs_distinct = v.jobs_distinct;
    users_by_id = b;
    sites_by_id = v.sites_by_id;
    jobs_by_id = v.jobs_by_id;
    users_indexed = i;
    sites_indexed = v.sites_indexed;
    audit_numbered = v.audit_numbered;
  }

  with_sites :
      (sites : Table Site) (index : Table Text)
      → Distinct sites
      → ById (λ site. site.id) sites
      → Indexed domain_key sites index
      → IsValid (record s { sites = sites; domain_index = index })
  with_sites sites index d b i = record {
    current_version = v.current_version;
    users_distinct = v.users_distinct;
    sites_distinct = d;
    jobs_distinct = v.jobs_distinct;
    users_by_id = v.users_by_id;
    sites_by_id = b;
    jobs_by_id = v.jobs_by_id;
    users_indexed = v.users_indexed;
    sites_indexed = i;
    audit_numbered = v.audit_numbered;
  }

  with_jobs :
      (jobs : Table Job)
      → Distinct jobs
      → ById (λ job. job.id) jobs
      → IsValid (record s { jobs = jobs })
  with_jobs jobs d b = record {
    current_version = v.current_version;
    users_distinct = v.users_distinct;
    sites_distinct = v.sites_distinct;
    jobs_distinct = d;
    users_by_id = v.users_by_id;
    sites_by_id = v.sites_by_id;
    jobs_by_id = b;
    users_indexed = v.users_indexed;
    sites_indexed = v.sites_indexed;
    audit_numbered = v.audit_numbered;
  }

  -- What the invariant does not speak of may change.
  with_rest :
      (version : ℕ) (sessions : Table Session) (logs : List AuditLog) (sequence : ℕ)
      → version ≡ schema_version
      → Ascending 0 logs sequence
      → IsValid (record s {
        schema_version = version;
        sessions = sessions;
        audit_logs = logs;
        audit_sequence = sequence;
      })
  with_rest version sessions logs sequence e a = record {
    current_version = e;
    users_distinct = v.users_distinct;
    sites_distinct = v.sites_distinct;
    jobs_distinct = v.jobs_distinct;
    users_by_id = v.users_by_id;
    sites_by_id = v.sites_by_id;
    jobs_by_id = v.jobs_by_id;
    users_indexed = v.users_indexed;
    sites_indexed = v.sites_indexed;
    audit_numbered = a;
  }

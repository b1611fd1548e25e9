-- ===== src/Store/FileDb/Methods.antt =====
-- The methods of the repository. A method that writes takes the outcome of its save; the ones that
-- only read return their result alone.
mod Listing
unfoldable pub use Listing.{clip, sort_newest, newest_first}
pub use Listing.{
  bound, IsNewestFirst, Fits, sort_newest-perm, length-sort_newest, sort_newest-IsNewestFirst,
  clip_prefix, newest_first-take,
}
use nusantara_panel.Base.{
  ℕ, ◌+◌, ◌%◌, ◌^◌, Text, Option, none, some, List, [], ◌∷◌, ◌++◌, Result, ok, err, ◌==◌,
  if◌then◌else◌, is_some, length, Unicode, to_lower, ℤ,
}
use nusantara_panel.Base.Table.{lookup, insert, delete, values}
use nusantara_panel.Store.{Time, User, Session, Site, Job, AuditLog, Error, not_found, conflict}
use nusantara_panel.Store.FileDb.Snapshot.{
  schema_version, Snapshot, Repository, Codec, Outcome, Step, save,
}

abbrev pub or_not_found {ℓ} : {A : Type ℓ} → Option A → Result Error A
or_not_found none = err not_found
or_not_found (some a) = ok a

-- Replaces the state in memory, then saves it.
abbrev pub commit : Codec → Outcome → Snapshot → Step Unit
commit codec o s r = save codec o (record r { snap = s })

unfoldable pub migrate : Codec → Outcome → Step Unit
migrate codec o r =
    if r.snap.schema_version == 0
    then commit codec o (record r.snap { schema_version = schema_version }) r
    else save codec o r

unfoldable pub count_users : Repository → ℕ
count_users r = length r.snap.users

module _ ⦃u : Unicode⦄ where
  unfoldable pub create_user : Codec → Outcome → User → Step Unit
  create_user codec o user r =
      let key = to_lower user.username in
      if is_some (lookup key r.snap.username_index)
      then (err conflict, r)
      else commit codec o
          (record r.snap {
            users = insert user.id user r.snap.users;
            username_index = insert key user.id r.snap.username_index;
          })
          r

  unfoldable pub get_user_by_username : Text → Repository → Result Error User
  get_user_by_username username r = elim (lookup (to_lower username) r.snap.username_index) [
    | none ↦ err not_found
    | some id ↦ or_not_found (lookup id r.snap.users)
  ]

unfoldable pub get_user_by_id : Text → Repository → Result Error User
get_user_by_id id r = or_not_found (lookup id r.snap.users)

unfoldable pub update_user_password : Codec → Outcome → Text → Text → Time → Step Unit
update_user_password codec o id password_hash updated_at r = elim (lookup id r.snap.users) [
  | none ↦ (err not_found, r)
  | some user ↦
      let user' = record user { password_hash = password_hash; updated_at = updated_at } in
      commit codec o (record r.snap { users = insert id user' r.snap.users }) r
]

unfoldable pub create_session : Codec → Outcome → Session → Step Unit
create_session codec o session r =
    commit codec o (record r.snap { sessions = insert session.token_hash session r.snap.sessions })
      r

unfoldable pub get_session_by_token_hash : Text → Repository → Result Error Session
get_session_by_token_hash token_hash r = or_not_found (lookup token_hash r.snap.sessions)

unfoldable pub delete_session_by_token_hash : Codec → Outcome → Text → Step Unit
delete_session_by_token_hash codec o token_hash r =
    commit codec o (record r.snap { sessions = delete token_hash r.snap.sessions }) r

module _ ⦃u : Unicode⦄ where
  unfoldable pub create_site : Codec → Outcome → Site → Step Unit
  create_site codec o site r =
      let key = to_lower site.domain in
      if is_some (lookup key r.snap.domain_index)
      then (err conflict, r)
      else commit codec o
          (record r.snap {
            sites = insert site.id site r.snap.sites;
            domain_index = insert key site.id r.snap.domain_index;
          })
          r

  unfoldable pub delete_site : Codec → Outcome → Text → Step Unit
  delete_site codec o id r = elim (lookup id r.snap.sites) [
    | none ↦ (err not_found, r)
    | some site ↦
        commit codec o
          (record r.snap {
            domain_index = delete (to_lower site.domain) r.snap.domain_index;
            sites = delete id r.snap.sites;
          })
          r
  ]

unfoldable pub list_sites : ℤ → Repository → List Site
unfolding clip sort_newest
list_sites limit r = clip limit (sort_newest (λ s. s.created_at) (values r.snap.sites))

unfoldable pub get_site_by_id : Text → Repository → Result Error Site
get_site_by_id id r = or_not_found (lookup id r.snap.sites)

-- `now` is the reading of the clock.
unfoldable pub update_site_status : Codec → Outcome → Time → Text → Text → Step Unit
update_site_status codec o now id status r = elim (lookup id r.snap.sites) [
  | none ↦ (err not_found, r)
  | some site ↦
      let site' = record site { status = status; updated_at = now } in
      commit codec o (record r.snap { sites = insert id site' r.snap.sites }) r
]

unfoldable pub create_job : Codec → Outcome → Job → Step Unit
create_job codec o job r = commit codec o (record r.snap { jobs = insert job.id job r.snap.jobs }) r

unfoldable pub list_jobs : ℤ → Repository → List Job
unfolding clip sort_newest
list_jobs limit r = clip limit (sort_newest (λ j. j.created_at) (values r.snap.jobs))

unfoldable pub get_job_by_id : Text → Repository → Result Error Job
get_job_by_id id r = or_not_found (lookup id r.snap.jobs)

unfoldable pub update_job :
    Codec → Outcome → Text → Text → Text → Option Time → Option Time → Step Unit
update_job codec o id status error_msg started_at finished_at r = elim (lookup id r.snap.jobs) [
  | none ↦ (err not_found, r)
  | some job ↦
      let job' = record job {
        status = status;
        error = error_msg;
        started_at = started_at;
        finished_at = finished_at;
      } in
      commit codec o (record r.snap { jobs = insert id job' r.snap.jobs }) r
]

-- The sequence is an int64, kept as its bit pattern.
unfoldable pub create_audit_log : Codec → Outcome → AuditLog → Step Unit
create_audit_log codec o entry r =
    let next = (r.snap.audit_sequence + 1) % 2 ^ 64 in
    commit codec o
      (record r.snap {
        audit_logs = r.snap.audit_logs ++ record entry { id = next } ∷ [];
        audit_sequence = next;
      })
      r

unfoldable pub list_audit_logs : ℤ → Repository → List AuditLog
unfolding newest_first
list_audit_logs limit r = newest_first limit r.snap.audit_logs

unfoldable pub close : Codec → Outcome → Step Unit
close codec o r = save codec o r

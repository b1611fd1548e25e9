-- ===== src/Store/FileDb/Calls.antt =====
-- The methods that write, as calls: a history of the repository is a list of them.
use nusantara_panel.Base.{◌+◌, ◌^◌, ◌<◌, Text, ◌≡◌, none, Unicode, Option}
use nusantara_panel.Base.Table.{lookup}
use nusantara_panel.Store.{Time, User, Session, Site, Job, AuditLog}
use nusantara_panel.Store.FileDb.Snapshot.{Snapshot, Codec, Outcome, Step}
use nusantara_panel.Store.FileDb.Methods.{
  migrate, create_user, update_user_password, create_session, delete_session_by_token_hash,
  create_site, update_site_status, delete_site, create_job, update_job, create_audit_log, close,
}

-- The calls that write.
pub data Call : Type 0 where
  migrates closes : Call
  creates_user : User → Call
  updates_password : Text → Text → Time → Call
  creates_session : Session → Call
  deletes_session : Text → Call
  creates_site : Site → Call
  sets_site_status : Time → Text → Text → Call
  deletes_site : Text → Call
  creates_job : Job → Call
  updates_job : Text → Text → Text → Option Time → Option Time → Call
  records_audit : AuditLog → Call

module _ ⦃u : Unicode⦄ where
  unfoldable pub apply : Codec → Outcome → Call → Step Unit
  apply codec o migrates = migrate codec o
  apply codec o closes = close codec o
  apply codec o (creates_user user) = create_user codec o user
  apply codec o (updates_password id hash at) = update_user_password codec o id hash at
  apply codec o (creates_session session) = create_session codec o session
  apply codec o (deletes_session hash) = delete_session_by_token_hash codec o hash
  apply codec o (creates_site site) = create_site codec o site
  apply codec o (sets_site_status now id status) = update_site_status codec o now id status
  apply codec o (deletes_site id) = delete_site codec o id
  apply codec o (creates_job job) = create_job codec o job
  apply codec o (updates_job id status error start end) =
      update_job codec o id status error start end
  apply codec o (records_audit entry) = create_audit_log codec o entry

-- New users, sites and jobs come under new identifiers, and the audit sequence stays an int64.
abbrev pub IsAdmissible : Call → Snapshot → Type 0
IsAdmissible (creates_user user) s = lookup user.id s.users ≡ none
IsAdmissible (creates_site site) s = lookup site.id s.sites ≡ none
IsAdmissible (records_audit entry) s = s.audit_sequence + 1 < 2 ^ 63
IsAdmissible _ s = Unit

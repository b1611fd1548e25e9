-- ===== src/Audit.antt =====
-- internal/audit/service.go: the log of what users do. json.Marshal is a parameter, and an error of
-- the store is only logged.
mod Tests
use nusantara_panel.Base.{List, ℤ, ℕ, Text, codes, Result, ok, err}
use nusantara_panel.Store.{AuditLog, Time}
use nusantara_panel.Store.FileDb.Snapshot.{Codec, Outcome, Repository}
use nusantara_panel.Store.FileDb.Methods.{create_audit_log, list_audit_logs}

abbrev pub or_braces : Result Text Text → Text
or_braces (ok body) = body
or_braces (err cause) = codes "{}"

-- The identifier is set by the repository.
abbrev pub entry_of : Text → Text → Text → Text → Result Text Text → Time → AuditLog
entry_of actor_user action target_type target_id metadata now = record {
  id = 0;
  actor_user = actor_user;
  action = action;
  target_type = target_type;
  target_id = target_id;
  metadata = or_braces metadata;
  created_at = now;
}

unfoldable pub record_action :
    Codec → Outcome → Time → Text → Text → Text → Text → Result Text Text → Repository → Repository
record_action codec o now actor_user action target_type target_id metadata r =
    (create_audit_log codec o (entry_of actor_user action target_type target_id metadata now) r).1

unfoldable pub list : ℤ → Repository → List AuditLog
list limit r = list_audit_logs limit r

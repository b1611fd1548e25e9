-- ===== src/Http/Overwritten.antt =====
-- What a restore over the API leaves: the audit log is saved behind it, from the state in memory.
use nusantara_panel.Base.{◌≡◌, Text, some}
use nusantara_panel.Store.FileDb.Snapshot.{Repository}
use nusantara_panel.Machine.{Machine}
use nusantara_panel.Backup

-- The repository `after` is `before` with more in the audit log, all of it saved as `raw`.
pub record IsLogged (raw : Text) (before after : Repository) : Type 0 where
  pub in_memory : after.snap ≡ record before.snap {
    audit_logs = after.snap.audit_logs;
    audit_sequence = after.snap.audit_sequence;
  }
  pub in_file : after.disk.state ≡ some raw

-- ===== src/Http/Tests/Restoring.antt =====
-- A restore over the API on a small machine.
use nusantara_panel.Base.{true, ℕ, Text, codes, [], ◌∷◌, some, ascii_tables}
use nusantara_panel.Base.Table.{Table}
use nusantara_panel.Store.FileDb.Snapshot.{Snapshot}
use nusantara_panel.Store.FileDb.Tests.{one_snapshot}
use nusantara_panel.Auth.Tests.{with_session, ann, token}
use nusantara_panel.Http.{AuditLog, Machine, Request, World, Api}
use nusantara_panel.Machine.{file, directory}
use nusantara_panel.Backup.{restore}
use nusantara_panel.Http.Backups.{placed}
use nusantara_panel.Backup.{Service}
use nusantara_panel.Http.Accounts.{Principal}
use nusantara_panel.Http.Tests.{env, api, request, world}

-- The panel with a backup that has no users, on a machine where it can be restored.
abbrev entry : AuditLog
entry = record {
  id = 1;
  actor_user = codes "u1";
  action = codes "backup.restore";
  target_type = codes "file";
  target_id = codes "/b/k";
  metadata = [];
  created_at = 60;
}

abbrev logged : Snapshot
logged = record with_session.snap { audit_logs = entry ∷ []; audit_sequence = 1 }

abbrev live : Service
live = record { apply = true; state_file = codes "/state"; backup_dir = codes "/b" }

abbrev live_api : Api (Table Text) ℕ
live_api = record api { backup = some live; jobs = record api.jobs { codec = one_snapshot logged } }

abbrev with_backup : World (Table Text) ℕ
with_backup = record world {
  machine = record {
    nodes = (codes "/", directory) ∷ (codes "/b/k", file (codes "no users")) ∷ [];
    faults = [];
  };
}

abbrev asks_restore : Request
asks_restore = record request { body = codes "/b/k" }

abbrev by_ann : Principal
by_ann = record { user = ann; token = token }

abbrev restored_machine : Machine
restored_machine =
    (restore live env.backup (codes "/b/k") (placed with_backup.repo with_backup.machine)).1

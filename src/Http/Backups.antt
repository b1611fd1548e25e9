-- ===== src/Http/Backups.antt =====
-- The handlers of the backups. The state file of the repository and its temporary file stand in the
-- file system that the backups act on.
use nusantara_panel.Base.{Text, codes, [], ◌∷◌, ◌++◌, Option, none, some, Result, ok, err, Unicode}
use nusantara_panel.Base.Table.{Table, insert, delete, lookup}
use nusantara_panel.Store.FileDb.Snapshot.{Repository}
use nusantara_panel.Machine.{Machine, Node, file}
use nusantara_panel.Backup
use nusantara_panel.Backup.{Service, BackupResult, run, restore}
use nusantara_panel.Http.{
  Request, Response, World, Env, Api, fields, text, backup_made, decode_json, write_error,
  write_json, audited,
}
use nusantara_panel.Http.Replies.{invalid_body}
use nusantara_panel.Http.Accounts.{Principal}

abbrev pub no_backups : Response
no_backups = write_error 500 (codes "backup service is not configured")

abbrev pub placed_at : Text → Option Text → Table Node → Table Node
placed_at path none nodes = delete path nodes
placed_at path (some content) nodes = insert path (file content) nodes

abbrev pub text_of : Option Node → Option Text
text_of (some (file content)) = some content
text_of _ = none

-- The file system with the files of the repository, and the files of the repository in it.
abbrev pub placed : Repository → Machine → Machine
placed r m = record m {
  nodes = placed_at (r.path ++ codes ".tmp") r.disk.tmp (placed_at r.path r.disk.state m.nodes);
}

abbrev pub found : Repository → Machine → Repository
found r m = record r {
  disk = record {
    state = text_of (lookup r.path m.nodes);
    tmp = text_of (lookup (r.path ++ codes ".tmp") m.nodes);
  };
}

-- The world after a backup service has left a machine.
abbrev pub with_machine : {F G : Type 0} → World F G → Machine → World F G
with_machine w m = record w { machine = m; repo = found w.repo m }

abbrev pub backup_message : Backup.Error → Text
backup_message Backup.invalid_backup_path = codes "invalid backup path"
backup_message (Backup.cancelled cause) = cause
backup_message (Backup.failed cause) = cause

abbrev pub restore_error : Backup.Error → Response
restore_error Backup.invalid_backup_path = write_error 400 (codes "invalid backup path")
restore_error e = write_error 500 (backup_message e)

module _ ⦃u : Unicode⦄ {F G : Type 0} (a : Api F G) (env : Env) where
  abbrev pub backup_run :
      Principal → World F G → Result Backup.Error BackupResult × Machine → Response × World F G
  backup_run p w (err e, m) = (write_error 500 (backup_message e), with_machine w m)
  backup_run p w (ok res, m) = (
    write_json 201 (backup_made res),
    audited a env p.user.id (codes "backup.run") (codes "file") res.file none (with_machine w m),
  )

  unfoldable pub handle_run_backup : Principal → World F G → Response × World F G
  unfolding audited
  handle_run_backup p w = elim a.backup [
    | none ↦ (no_backups, w)
    | some s ↦ backup_run p w (run s env.backup (placed w.repo w.machine))
  ]

  abbrev pub restored :
      Principal → Text → World F G → Result Backup.Error (Unit {0}) × Machine → Response × World F G
  restored p name w (err e, m) = (restore_error e, with_machine w m)
  restored p name w (ok _, m) = (
    write_json 200 (
        fields (
          (codes "status", text (codes "ok"))
          ∷ (codes "file", text name)
          ∷ (
            codes "note",
            text (codes "restart nusantara-panel service is recommended after restore"),
          )
          ∷ [])),
    audited a env p.user.id (codes "backup.restore") (codes "file") name none (with_machine w m),
  )

  unfoldable pub handle_restore_backup : Principal → Request → World F G → Response × World F G
  unfolding audited
  handle_restore_backup p req w = elim a.backup [
    | none ↦ (no_backups, w)
    | some s ↦ elim (decode_json a.decoders.restore_backup req) [
      | none ↦ (invalid_body, w)
      | some name ↦ restored p name w (restore s env.backup name (placed w.repo w.machine))
    ]
  ]

-- ===== src/Backup.antt =====
-- internal/backup/service.go: copies of the state file, and their restoring. The files are those of a
-- machine whose calls may fail. The working directory and the format of times are parameters.
pub mod Copy
pub mod Restored
pub mod RoundTrip
mod Tests
use nusantara_panel.Base.{
  ◌&&◌, Text, codes, [], ◌∷◌, ◌++◌, Bool, Option, none, some, Result, ok, err, text_eq, has_prefix,
  not, if◌then◌else◌, Unicode, trim_space,
}
use nusantara_panel.Base.Table.{Table}
use nusantara_panel.Store.{Time}
use nusantara_panel.Machine.{
  describe, Node, ◌>>=◌, ◌>>◌, Machine, Act, Io, open_file, close_file, mkdir_all, read_file,
  write_file, rename, stat,
}
use nusantara_panel.Sites.Paths.{clean, join_path, dir}

pub record Service : Type 0 where
  pub apply : Bool
  pub state_file : Text
  pub backup_dir : Text

pub data Error : Type 0 where
  invalid_backup_path : Error
  cancelled failed : Text → Error

pub record BackupResult : Type 0 where
  pub file : Text
  pub created_at : Time

-- What one call finds: the error of its context, if that is done, the time, how a time is written in
-- the name of a file, and the working directory, if it can be told.
pub record Env : Type 0 where
  pub done : Option Text
  pub now : Time
  pub stamp : Time → Text
  pub working_dir : Option Text

-- filepath.Abs
unfoldable pub abs_path : Option Text → Text → Option Text
unfolding has_prefix clean join_path
abs_path dir path =
    if has_prefix path (codes "/")
    then some (clean path)
    else elim dir [ none ↦ none | some d ↦ some (join_path d path) ]

-- io.Copy of what was opened at one path into the file at another
abbrev pub copy_content : Text → Text → Io (Unit {0})
copy_content src target = do content ← read_file src; write_file target content

unfoldable pub copy_file : Text → Text → Act Text (Unit {0})
copy_file src dst = do
  describe (codes "open source file: ") (open_file src)
  describe (codes "create destination dir: ") (mkdir_all (dir dst))
  describe (codes "create temp file: ") (write_file (dst ++ codes ".tmp") [])
  describe (codes "copy file: ") (copy_content src (dst ++ codes ".tmp"))
  describe (codes "close temp file: ") close_file
  describe (codes "move backup file: ") (rename (dst ++ codes ".tmp") dst)

abbrev pub answered {ℓ} :
    {A : Type ℓ} → A → Result Text (Unit {0}) × Machine → Result Error A × Machine
answered a (ok _, m) = (ok a, m)
answered a (err e, m) = (err (failed e), m)

abbrev pub backup_name : Env → Text
backup_name env = codes "nusantara_state_" ++ env.stamp env.now ++ codes ".json"

abbrev pub result_of : Service → Env → BackupResult
result_of s env = record { file = join_path s.backup_dir (backup_name env); created_at = env.now }

abbrev pub copied_to : Service → Text → Act Text (Unit {0})
copied_to s target = do
  describe (codes "create backup dir: ") (mkdir_all s.backup_dir)
  copy_file s.state_file target

abbrev pub looked : Io Node → Io (Unit {0})
looked act = do node ← act; (λ m. (ok tt, m))

module _ ⦃u : Unicode⦄ where
  unfoldable pub run : Service → Env → Act Error BackupResult
  run s env m = elim env.done [
    | some cause ↦ (err (cancelled cause), m)
    | none ↦
        let res = result_of s env in
        if text_eq (trim_space s.state_file) []
        then (err (failed (codes "state file is empty")), m)
        else if text_eq (trim_space s.backup_dir) []
        then (err (failed (codes "backup dir is empty")), m)
        else if not s.apply
        then (ok res, m)
        else answered res (copied_to s res.file m)
  ]

  abbrev pub restored_from : Service → Text → Act Text (Unit {0})
  restored_from s file = do
    describe (codes "backup file not found: ") (looked (stat file))
    copy_file file s.state_file

  -- The end of `restore`, when both paths are absolute.
  abbrev pub restore_checked : Service → Text → Text → Act Error (Unit {0})
  restore_checked s root file m =
      if not (has_prefix file (root ++ codes "/")) && not (text_eq file root)
      then (err invalid_backup_path, m)
      else if not s.apply
      then (ok tt, m)
      else answered tt (restored_from s file m)

  unfoldable pub restore : Service → Env → Text → Act Error (Unit {0})
  restore s env backup_file m =
      let file = trim_space backup_file in
      elim env.done [
        | some cause ↦ (err (cancelled cause), m)
        | none ↦
            if text_eq file []
            then (err invalid_backup_path, m)
            else elim (abs_path env.working_dir s.backup_dir) [
              | none ↦ (err invalid_backup_path, m)
              | some root ↦ elim (abs_path env.working_dir file) [
                | none ↦ (err invalid_backup_path, m)
                | some path ↦ restore_checked s root path m
              ]
            ]
      ]

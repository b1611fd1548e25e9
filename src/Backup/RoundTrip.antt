-- ===== src/Backup/RoundTrip.antt =====
-- A backup and its restoring together.
use nusantara_panel.Base.{
  subst, Text, codes, true, Option, some, Result, ok, err, ◌≡◌, ◌≢◌, refl, ◌∙◌, Option-cases,
  Bool-cases, inl, inr, text_eq, [], Unicode, trim_space,
}
use nusantara_panel.Base.Table.{Table, lookup}
use nusantara_panel.Sites.Paths.{dir}
use nusantara_panel.Nginx.Steps.{tmp}
use nusantara_panel.Machine.{Node, file, directory, link, Machine, mkdir_all}
use nusantara_panel.Machine.Rules.{Post, Post-step}
use nusantara_panel.Backup.{
  Service, Env, Error, BackupResult, abs_path, run, restore, answered, result_of, copied_to,
  copy_file,
}
use nusantara_panel.Backup.Copy.{
  IsCopyable, Steady, Untouched, Ended, copy_file-Post, directory_made,
}
use nusantara_panel.Backup.Restored.{restore-Post}

module _ ⦃u : Unicode⦄ (s : Service) (env : Env) where
  abbrev Made : Text → BackupResult → Table Node → Type 0
  Made content res nodes = (res ≡ result_of s env) × (lookup res.file nodes ≡ some (file content))

  answered_run :
      (content : Text) (before : Option Node) (p : Result Text (Unit {0}) × Machine)
      → Post
          (Untouched s.state_file (result_of s env).file content before)
          (Ended s.state_file (result_of s env).file content before)
          p
      → Post
          (λ nodes. lookup (result_of s env).file nodes ≡ before)
          (Made content)
          (answered (result_of s env) p)
  answered_run content before (ok _, m) h = (refl, h)
  answered_run content before (err e, m) h = h

  -- A backup that is not a dry run refuses, with nothing done, or copies the state.
  run-cases :
      (P : Result Error BackupResult × Machine → Type 0) (m : Machine)
      → s.apply ≡ true
      → ((e : Error) → P (err e, m))
      → P (answered (result_of s env) (copied_to s (result_of s env).file m))
      → P (run s env m)
  unfolding run
  run-cases P m on refused copied = elim (Option-cases env.done) [
    | inr (cause, e) ↦ rw (e, run) (refused _)
    | inl e ↦ elim (Bool-cases (text_eq (trim_space s.state_file) [])) [
      | inl e1 ↦ rw (e, run, e1) (refused _)
      | inr e1 ↦ elim (Bool-cases (text_eq (trim_space s.backup_dir) [])) [
        | inl e2 ↦ rw (e, run, e1, e2) (refused _)
        | inr e2 ↦ rw (e, run, e1, e2, on) copied
      ]
    ]
  ]

  -- On a machine whose calls may fail at any point, where the state file can be copied into the
  -- directory of backups, which exists, a backup that is not a dry run leaves a copy of the state
  -- file under the name that it reports, and leaves what stood under that name when it fails.
  pub run-Post :
      (content : Text) (m : Machine)
      → s.apply ≡ true
      → lookup s.backup_dir m.nodes ≡ some directory
      → IsCopyable s.state_file (result_of s env).file content m.nodes
      → Post
          (λ nodes. lookup (result_of s env).file nodes ≡ lookup (result_of s env).file m.nodes)
          (Made content)
          (run s env m)
  run-Post content m on there k =
      let target = (result_of s env).file in
      let before = lookup target m.nodes in
      let steady : Steady s.state_file target content before m.nodes = record {
        copyable = k;
        target = refl;
      } in
      run-cases (Post (λ nodes. lookup target nodes ≡ before) (Made content)) m on (λ e. refl)
        (answered_run content before (copied_to s target m) (
          Post-step (Untouched s.state_file target content before)
            (λ (_ : Unit {0}). Steady s.state_file target content before)
            (Ended s.state_file target content before) (codes "create backup dir: ")
            (mkdir_all s.backup_dir) (λ _. copy_file s.state_file target) m
            (directory_made s.state_file target content before s.backup_dir m there steady)
            (λ _ m1 k1. copy_file-Post s.state_file target content before m1 k1)))

  run-Made :
      (content : Text) (m1 : Machine) (res : BackupResult) (p : Result Error BackupResult × Machine)
      (before : Option Node)
      → Post (λ nodes. lookup (result_of s env).file nodes ≡ before) (Made content) p
      → p ≡ (ok res, m1)
      → Made content res m1.nodes
  run-Made content m1 res p before h e =
      subst (Post (λ nodes. lookup (result_of s env).file nodes ≡ before) (Made content)) e h

-- Where the state file may be written, beside a backup: its temporary file is not the backup and no
-- symbolic link, and its directory exists.
pub record IsWritable (backup state_file : Text) (nodes : Table Node) : Type 0 where
  pub apart : backup ≢ tmp state_file
  pub parent : lookup (dir state_file) nodes ≡ some directory
  pub no_link : (target : Text) → lookup (tmp state_file) nodes ≢ some (link target)

-- A backup that is not a dry run and succeeds, where the directory of backups exists, the state file
-- is a file apart from the temporary file of the backup, this temporary file is no symbolic link, and
-- the path of the backup is absolute, brings the state back: on a later machine whose calls may fail
-- at any point, where the backup still stands apart from the temporary file of the state, which is no
-- symbolic link, and the directory of the state file exists, restoring it leaves the state file with
-- its text at the time of the backup when it succeeds, and as it was when it fails.
pub restore-run :
    ⦃u : Unicode⦄
    → (s : Service) (env later : Env) (content : Text) (m m1 m2 : Machine) (res : BackupResult)
    → s.apply ≡ true
    → lookup s.backup_dir m.nodes ≡ some directory
    → IsCopyable s.state_file (result_of s env).file content m.nodes
    → run s env m ≡ (ok res, m1)
    → abs_path later.working_dir (trim_space res.file) ≡ some res.file
    → lookup res.file m2.nodes ≡ lookup res.file m1.nodes
    → IsWritable res.file s.state_file m2.nodes
    → Post
        (λ nodes. lookup s.state_file nodes ≡ lookup s.state_file m2.nodes)
        (λ (_ : Unit {0}) nodes. lookup s.state_file nodes ≡ some (file content))
        (restore s later res.file m2)
restore-run s env later content m m1 m2 res on there k made at stands k2 =
    let (_, copied) =
      run-Made s env content m1 res (run s env m) _ (run-Post s env content m on there k) made in
    restore-Post s later res.file res.file content m2 on at (record {
      source = stands ∙ copied;
      apart = k2.apart;
      parent = k2.parent;
      no_link = k2.no_link;
    })

-- ===== src/Backup/Restored.antt =====
-- What `Restore` of internal/backup/service.go leaves of the state file.
use nusantara_panel.Base.{
  Text, codes, true, not, Option, some, Result, ok, err, ◌≡◌, refl, Option-cases, Bool-cases, inl,
  inr, text_eq, has_prefix, ◌++◌, ◌&&◌, [], Unicode, trim_space,
}
use nusantara_panel.Base.Table.{lookup}
use nusantara_panel.Machine.{file, Machine, stat}
use nusantara_panel.Machine.Rules.{Post, Post-step}
use nusantara_panel.Backup.{
  Node, Service, Env, Error, abs_path, restore, restored_from, answered, looked, copy_file,
}
use nusantara_panel.Backup.Copy.{IsCopyable, Steady, Untouched, Ended, copy_file-Post, looked-Post}

module _ (src dst content : Text) (before : Option Node) where
  answered-Post :
      (res : Result Text (Unit {0}) × Machine)
      → Post (Untouched src dst content before) (Ended src dst content before) res
      → Post (Untouched src dst content before) (Ended src dst content before) (answered tt res)
  answered-Post (ok _, m) h = h
  answered-Post (err e, m) h = h

module _ ⦃u : Unicode⦄ (s : Service) (env : Env) (backup_file path : Text) where
  -- A restore that is not a dry run refuses, with nothing done, or copies the file.
  restore-cases :
      (P : Result Error (Unit {0}) × Machine → Type 0) (m : Machine)
      → s.apply ≡ true
      → abs_path env.working_dir (trim_space backup_file) ≡ some path
      → ((e : Error) → P (err e, m))
      → P (answered tt (restored_from s path m))
      → P (restore s env backup_file m)
  unfolding restore
  restore-cases P m on at refused copied = elim (Option-cases env.done) [
    | inr (cause, e) ↦ rw (e, restore) (refused _)
    | inl e ↦ elim (Bool-cases (text_eq (trim_space backup_file) [])) [
      | inl e1 ↦ rw (e, restore, e1) (refused _)
      | inr e1 ↦ elim (Option-cases (abs_path env.working_dir s.backup_dir)) [
        | inl e2 ↦ rw (e, restore, e1, e2) (refused _)
        | inr (root, e2) ↦
            elim (Bool-cases
              (not (has_prefix path (root ++ codes "/")) && not (text_eq path root))) [
                | inl e3 ↦ rw (e, restore, e1, e2, at, e3) (refused _)
                | inr e3 ↦ rw (e, restore, e1, e2, at, e3, on) copied
              ]
      ]
    ]
  ]

  -- On a machine whose calls may fail at any point, where the absolute path of the file that is asked
  -- for is that of a file apart from the temporary file of the state, this temporary file is no
  -- symbolic link, and the directory of the state file exists, a restore that is not a dry run leaves
  -- the text of that file in the state file when it succeeds, and leaves the state file as it was when
  -- it fails.
  pub restore-Post :
      (content : Text) (m : Machine)
      → s.apply ≡ true
      → abs_path env.working_dir (trim_space backup_file) ≡ some path
      → IsCopyable path s.state_file content m.nodes
      → Post
          (λ nodes. lookup s.state_file nodes ≡ lookup s.state_file m.nodes)
          (λ (_ : Unit {0}) nodes. lookup s.state_file nodes ≡ some (file content))
          (restore s env backup_file m)
  restore-Post content m on at k =
      let before = lookup s.state_file m.nodes in
      let steady : Steady path s.state_file content before m.nodes = record {
        copyable = k;
        target = refl;
      } in
      restore-cases
        (Post (λ nodes. lookup s.state_file nodes ≡ before)
          (λ (_ : Unit {0}) nodes. lookup s.state_file nodes ≡ some (file content)))
        m on at (λ e. refl)
        (answered-Post path s.state_file content before (restored_from s path m) (
          Post-step (Untouched path s.state_file content before)
            (λ (_ : Unit {0}). Steady path s.state_file content before)
            (Ended path s.state_file content before) (codes "backup file not found: ")
            (looked (stat path)) (λ _. copy_file path s.state_file) m
            (looked-Post path s.state_file content before m steady)
            (λ _ m1 k1. copy_file-Post path s.state_file content before m1 k1)))

-- ===== src/Backup/Tests.antt =====
-- A backup and its restoring on a small machine.
use nusantara_panel.Base.{
  ◌≡◌, refl, Text, codes, [], ◌∷◌, true, none, some, ok, text_eq, ne_of_text_eq, ascii_tables,
  trim_space, has_prefix,
}
use nusantara_panel.Base.Table.{delete, insert, Table, lookup}
use nusantara_panel.Sites.Files.{other}
use nusantara_panel.Sites.Paths.{join_path, clean, dir}
use nusantara_panel.Machine.{
  rename, close_file, read_file, write_file, open_file, mkdir_all, Machine, Node, file, directory,
}
use nusantara_panel.Machine.Rules.{Post}
use nusantara_panel.Backup.{
  copy_file, Service, Env, BackupResult, restore, run, result_of, abs_path,
}
use nusantara_panel.Backup.Copy.{IsCopyable}
use nusantara_panel.Backup.Restored.{restore-Post}
use nusantara_panel.Backup.RoundTrip.{IsWritable, restore-run}

abbrev service : Service
service = record { apply = true; state_file = codes "/d/s"; backup_dir = codes "/b" }

abbrev env : Env
env = record { done = none; now = 7; stamp = λ now. codes "t"; working_dir = none }

abbrev backup_file : Text
backup_file = codes "/b/nusantara_state_t.json"

abbrev nodes : Table Node
nodes =
    (codes "/d/s", file (codes "now"))
    ∷ (codes "/d", directory)
    ∷ (codes "/b", directory)
    ∷ (backup_file, file (codes "old"))
    ∷ []

-- The fifth call is the writing of the temporary file, which stops after a part.
abbrev failing : Machine
failing = record {
  nodes = nodes;
  faults =
      none
      ∷ none
      ∷ none
      ∷ none
      ∷ none
      ∷ some (record { cause = other (codes "no space left on device"); part = some (codes "o") })
      ∷ [];
}

restorable : IsCopyable backup_file (codes "/d/s") (codes "old") nodes
unfolding lookup dir clean has_prefix
restorable = record {
  source = refl;
  apart = ne_of_text_eq _ _ refl;
  parent = refl;
  no_link = λ target h. cc;
}

restore-Post_example :
    Post
      (λ left. lookup (codes "/d/s") left ≡ lookup (codes "/d/s") nodes)
      (λ (_ : Unit {0}) left. lookup (codes "/d/s") left ≡ some (file (codes "old")))
      (restore service env backup_file failing)
unfolding abs_path trim_space has_prefix clean
restore-Post_example =
    restore-Post service env backup_file backup_file (codes "old") failing refl refl restorable

abbrev start : Machine
start = record { nodes = nodes; faults = [] }

abbrev report : BackupResult
report = record { file = backup_file; created_at = 7 }

abbrev after_backup : Machine
after_backup = record {
  nodes =
      (codes "/d/s", file (codes "now"))
      ∷ (codes "/d", directory)
      ∷ (codes "/b", directory)
      ∷ (backup_file, file (codes "now"))
      ∷ [];
  faults = [];
}

backup_made : run service env start ≡ (ok report, after_backup)
unfolding run text_eq trim_space mkdir_all lookup copy_file open_file dir has_prefix join_path
    write_file read_file insert delete close_file rename clean
backup_made = refl

-- The state is lost, and the first look at the backup fails.
abbrev later : Machine
later = record {
  nodes = (codes "/d", directory) ∷ (backup_file, file (codes "now")) ∷ [];
  faults = some (record { cause = other (codes "input/output error"); part = none }) ∷ [];
}

copyable : IsCopyable (codes "/d/s") (result_of service env).file (codes "now") nodes
unfolding lookup dir clean has_prefix join_path
copyable = record {
  source = refl;
  apart = ne_of_text_eq _ _ refl;
  parent = refl;
  no_link = λ target h. cc;
}

writable : IsWritable backup_file (codes "/d/s") later.nodes
unfolding lookup dir clean has_prefix
writable = record { apart = ne_of_text_eq _ _ refl; parent = refl; no_link = λ target h. cc }

restore-run_example :
    Post
      (λ left. lookup (codes "/d/s") left ≡ lookup (codes "/d/s") later.nodes)
      (λ (_ : Unit {0}) left. lookup (codes "/d/s") left ≡ some (file (codes "now")))
      (restore service env backup_file later)
unfolding abs_path trim_space has_prefix clean lookup
restore-run_example =
    restore-run service env env (codes "now") start after_backup later report refl refl copyable
      backup_made refl refl writable

-- ===== src/Nginx/Provision.antt =====
-- What the provisioner of internal/provision/nginx.go does on the machine to put a site into service
-- and to take it out. The commands of nginx are a parameter: what a command answers, from its words
-- and the files it can read, and the error and the output when it fails.
use nusantara_panel.Base.Table.{Table}
use nusantara_panel.Nginx.{
  NginxConfig, sanitize_conf_name, render_nginx_server, default_php_index, default_static_index,
}
use nusantara_panel.Machine.{
  describe, mkdir_all, ◌>>=◌, ◌>>◌, directory, file, link, readlink, Node, rename, symlink, Io,
  create_file, Act, write_file, stat, read_file, remove, Machine, lstat,
}
use nusantara_panel.Base.{
  words, to_lower, trim_space, Unicode, none, some, [], text_eq, not, if◌then◌else◌, some, ◌∷◌,
  false, true, ◌++◌, Bool, List, Option, Text, codes, Result, ok, err,
}
use nusantara_panel.Sites.Files.{other, permission, not_exist, OsError}
use nusantara_panel.Sites.Paths.{join_path}
use nusantara_panel.Store.{Site}

abbrev pub Exec : Type 0
Exec = List Text → Table Node → Option (Text × Text)

abbrev prefixed_result {ℓ} : {A : Type ℓ} → Text → Result Text A × Machine → Result Text A × Machine
prefixed_result context (err e, m) = (err (context ++ e), m)
prefixed_result context (ok a, m) = (ok a, m)

abbrev pub prefixed {ℓ} : {A : Type ℓ} → Text → Act Text A → Act Text A
prefixed context act m = prefixed_result context (act m)

-- A removal of what is not there succeeds.
abbrev unless_missing : Result OsError (Unit {0}) × Machine → Result OsError (Unit {0}) × Machine
unless_missing (ok _, m) = (ok tt, m)
unless_missing (err (not_exist e), m) = (ok tt, m)
unless_missing (err (permission e), m) = (err (permission e), m)
unless_missing (err (other e), m) = (err (other e), m)

abbrev pub remove_if_exists : Text → Io (Unit {0})
remove_if_exists path m = unless_missing (remove path m)

unfoldable pub write_atomic : Text → Text → Io (Unit {0})
unfolding write_file rename
write_atomic path content = do
  write_file (path ++ codes ".tmp") content
  rename (path ++ codes ".tmp") path

abbrev found : Result OsError Text × Machine → Result OsError (Text × Bool) × Machine
found (ok content, m) = (ok (content, true), m)
found (err (not_exist e), m) = (ok ([], false), m)
found (err (permission e), m) = (err (permission e), m)
found (err (other e), m) = (err (other e), m)

unfoldable pub read_if_exists : Text → Io (Text × Bool)
unfolding read_file
read_if_exists path m = found (read_file path m)

abbrev link_target : Result OsError Text × Machine → Result OsError (Text × Bool) × Machine
link_target (ok target, m) = (ok (target, true), m)
link_target (err e, m) = (err e, m)

abbrev link_found : Text → Result OsError Node × Machine → Result OsError (Text × Bool) × Machine
link_found path (ok (link _), m) = link_target (readlink path m)
link_found path (ok (file _), m) = (ok ([], true), m)
link_found path (ok directory, m) = (ok ([], true), m)
link_found path (err (not_exist e), m) = (ok ([], false), m)
link_found path (err (permission e), m) = (err (permission e), m)
link_found path (err (other e), m) = (err (other e), m)

unfoldable pub read_link_if_exists : Text → Io (Text × Bool)
unfolding lstat readlink
read_link_if_exists path m = link_found path (lstat path m)

abbrev relink : Text → Text → Io (Unit {0})
relink target link_path = do remove link_path; symlink target link_path

abbrev relink_if_other :
    Text → Text → Result OsError Text × Machine → Result OsError (Unit {0}) × Machine
relink_if_other target link_path (ok current, m) =
    if text_eq current target then (ok tt, m) else relink target link_path m
relink_if_other target link_path (err e, m) = relink target link_path m

abbrev upsert_over :
    Text → Text → Result OsError Node × Machine → Result OsError (Unit {0}) × Machine
upsert_over target link_path (ok (link _), m) =
    relink_if_other target link_path (readlink link_path m)
upsert_over target link_path (ok (file _), m) = relink target link_path m
upsert_over target link_path (ok directory, m) = relink target link_path m
upsert_over target link_path (err (not_exist e), m) = symlink target link_path m
upsert_over target link_path (err (permission e), m) = (err (permission e), m)
upsert_over target link_path (err (other e), m) = (err (other e), m)

unfoldable pub upsert_symlink : Text → Text → Io (Unit {0})
unfolding lstat readlink remove symlink
upsert_symlink target link_path m = upsert_over target link_path (lstat link_path m)

abbrev pub restore_conf : Text → Text × Bool → Io (Unit {0})
restore_conf conf_path (content, had) =
    if had then write_atomic conf_path content else remove_if_exists conf_path

abbrev pub restore_target : Text → Text → Io (Unit {0})
restore_target link_path [] m = (ok tt, m)
restore_target link_path (c ∷ target) m = symlink (c ∷ target) link_path m

abbrev pub restore_link : Text → Text × Bool → Io (Unit {0})
restore_link link_path (target, had) =
    if not had
    then remove_if_exists link_path
    else (remove_if_exists link_path >> restore_target link_path target)

unfoldable pub rollback : Text → Text → Text × Bool → Text × Bool → Io (Unit {0})
unfolding write_atomic remove symlink
rollback conf_path link_path previous_conf previous_link = do
  restore_conf conf_path previous_conf
  restore_link link_path previous_link

abbrev index_of_stat : Io Bool → Result OsError Node × Machine → Result OsError Bool × Machine
index_of_stat next (ok node, m) = (ok true, m)
index_of_stat next (err (not_exist e), m) = next m
index_of_stat next (err (permission e), m) = (err (permission e), m)
index_of_stat next (err (other e), m) = (err (other e), m)

abbrev has_index_among : List Text → Text → Io Bool
has_index_among [] root m = (ok false, m)
has_index_among (name ∷ names) root m =
    index_of_stat (has_index_among names root) (stat (join_path root name) m)

unfoldable pub has_any_index : Text → Io Bool
unfolding stat join_path
has_any_index root =
    has_index_among (codes "index.php" ∷ codes "index.html" ∷ codes "index.htm" ∷ []) root

abbrev not_created : Result OsError Bool × Machine → Result OsError (Unit {0}) × Machine
not_created (ok _, m) = (ok tt, m)
not_created (err e, m) = (err e, m)

unfoldable pub write_file_if_not_exists : Text → Text → Io (Unit {0})
unfolding create_file
write_file_if_not_exists path content m = not_created (create_file path content m)

abbrev unless_index : Text → Text → Text → Io (Unit {0})
unless_index root name content = do
  exists ← has_any_index root
  if exists then (λ m. (ok tt, m)) else write_file_if_not_exists (join_path root name) content

-- A step whose failure is undone; the error of the undoing is dropped.
abbrev pub undone :
    Text → Io (Unit {0}) → Result Text (Unit {0}) × Machine → Result Text (Unit {0}) × Machine
undone context undo (ok _, m) = (ok tt, m)
undone context undo (err e, m) = (err (context ++ e), (undo m).1)

abbrev pub or_undo : Text → Io (Unit {0}) → Act Text (Unit {0}) → Act Text (Unit {0})
or_undo context undo act m = undone context undo (act m)

module _ ⦃u : Unicode⦄ where
  abbrev ran : Text → Option (Text × Text) → Result Text (Unit {0})
  ran raw none = ok tt
  ran raw (some (cause, output)) =
      err (raw ++ codes ": " ++ cause ++ codes " (" ++ trim_space output ++ codes ")")

  unfoldable pub run_command : Exec → Text → Act Text (Unit {0})
  run_command exec raw m =
      let parts = words [] (trim_space raw) in
      elim parts [
        | [] ↦ (err (codes "empty command"), m)
        | (name ∷ args) ↦ (ran raw (exec (name ∷ args) m.nodes), m)
      ]

  unfoldable pub ensure_runtime_bootstrap : Site → Act Text (Unit {0})
  unfolding has_any_index write_file_if_not_exists
  ensure_runtime_bootstrap site m =
      let root = trim_space site.root_path in
      let runtime = to_lower (trim_space site.runtime) in
      if text_eq root []
      then (err (codes "empty root path"), m)
      else if text_eq runtime (codes "php")
      then describe [] (unless_index root (codes "index.php") (default_php_index site.domain)) m
      else if text_eq runtime (codes "static")
      then describe [] (unless_index root (codes "index.html") (default_static_index site.domain)) m
      else (ok tt, m)

  -- The end of `ProvisionSite`, once the directories stand: the configuration of the site takes the
  -- place of the one before.
  unfoldable pub activate : NginxConfig → Exec → Text → Text → Text → Act Text (Unit {0})
  unfolding read_if_exists read_link_if_exists write_atomic upsert_symlink rollback run_command
  activate c exec conf_path link_path content = do
    previous_conf ← describe (codes "read previous conf: ") (read_if_exists conf_path)
    previous_link ← describe (codes "read previous link: ") (read_link_if_exists link_path)
    describe (codes "write nginx conf: ") (write_atomic conf_path content)
    or_undo (codes "upsert symlink: ") (rollback conf_path link_path previous_conf previous_link)
        (describe [] (upsert_symlink conf_path link_path))
    or_undo (codes "nginx test failed: ") (rollback conf_path link_path previous_conf previous_link)
        (run_command exec c.test_command)
    or_undo (codes "nginx reload failed: ")
        (rollback conf_path link_path previous_conf previous_link)
        (run_command exec c.reload_command)

  abbrev conf_name : Site → Text
  conf_name site = sanitize_conf_name site.domain ++ codes ".conf"

  abbrev pub conf_path : NginxConfig → Site → Text
  conf_path c site = join_path c.available_dir (conf_name site)

  abbrev pub link_path : NginxConfig → Site → Text
  link_path c site = join_path c.enabled_dir (conf_name site)

  abbrev provision : NginxConfig → Exec → Site → Act Text (Unit {0})
  provision c exec site = do
    describe (codes "create available dir: ") (mkdir_all c.available_dir)
    describe (codes "create enabled dir: ") (mkdir_all c.enabled_dir)
    describe (codes "create site root: ") (mkdir_all site.root_path)
    prefixed (codes "bootstrap site root: ") (ensure_runtime_bootstrap site)
    activate c exec (conf_path c site) (link_path c site) (render_nginx_server site)

  unfoldable pub provision_site : NginxConfig → Exec → Site → Act Text (Unit {0})
  unfolding activate mkdir_all ensure_runtime_bootstrap render_nginx_server sanitize_conf_name
  provision_site c exec site m =
      if not c.apply
      then (ok tt, m)
      else if text_eq site.domain []
      then (err (codes "site domain is empty"), m)
      else if text_eq site.root_path []
      then (err (codes "site root_path is empty"), m)
      else provision c exec site m

  abbrev deprovision : NginxConfig → Exec → Site → Act Text (Unit {0})
  deprovision c exec site = do
    describe (codes "remove symlink: ") (remove_if_exists (link_path c site))
    describe (codes "remove conf: ") (remove_if_exists (conf_path c site))
    prefixed (codes "nginx test failed: ") (run_command exec c.test_command)
    prefixed (codes "nginx reload failed: ") (run_command exec c.reload_command)

  unfoldable pub deprovision_site : NginxConfig → Exec → Site → Act Text (Unit {0})
  unfolding remove run_command sanitize_conf_name
  deprovision_site c exec site m =
      if not c.apply
      then (ok tt, m)
      else if text_eq site.domain []
      then (err (codes "site domain is empty"), m)
      else deprovision c exec site m

-- ===== src/Http/Tests.antt =====
-- The API on concrete requests.
mod Restoring
use nusantara_panel.Base.{
  err, ne_of_text_eq, true, false, ℕ, ◌≡◌, ◌≢◌, ◌≤◌, ◌⊎◌, refl, Text, codes, [], ◌∷◌, Option, none,
  some, ok, text_eq, has_prefix, cut, equal_fold, ascii_tables, trim_space, to_lower, if◌then◌else◌,
  arith,
}
use nusantara_panel.Base.Table.{insert, Table, lookup}
use nusantara_panel.Store.FileDb.Snapshot.{Snapshot, saved}
use nusantara_panel.Store.FileDb.Methods.{
  get_user_by_username, get_user_by_id, get_session_by_token_hash,
}
use nusantara_panel.Auth.{login, authenticate, hash_token, hex_encode}
use native.Mathlib.Decide.{ℕ_discrete}
use nusantara_panel.Auth.{logout}
use nusantara_panel.Base.Table.{delete}
use nusantara_panel.Store.FileDb.Tests.{one_snapshot, Snapshot-discrete}
use nusantara_panel.Store.FileDb.Snapshot.{save, replace_file}
use nusantara_panel.Store.FileDb.Methods.{delete_session_by_token_hash}
use nusantara_panel.Auth.Tests.{logged_in, service, with_session, ann, token}
use nusantara_panel.Password.{verify}
use nusantara_panel.RateLimit.{LoginLimiter, allow}
use nusantara_panel.Sites.Tests.{memory}
use nusantara_panel.Jobs.{sends, new_service}
use nusantara_panel.Jobs.Tests.{bare_payloads}
use nusantara_panel.Http.{
  audited, AuditLog, Machine, Request, World, Env, Api, Decoders, LoginRequest, parse_limit,
  bearer_token, login_limit_key, client_ip, write_error,
}
use nusantara_panel.Http.Replies
use nusantara_panel.Sites.Files.{not_exist}
use nusantara_panel.Sites.Tests.Archiving.{plain_archiver}
use nusantara_panel.Machine.{
  file, directory, rename, close_file, read_file, write_file, open_file, mkdir_all, stat,
}
use nusantara_panel.Backup.{abs_path, restore, copy_file}
use nusantara_panel.Backup.Copy.{IsCopyable}
use nusantara_panel.Audit.{record_action}
use nusantara_panel.Sites.Paths.{dir, clean, join_path}
use nusantara_panel.Http.Overwritten.{IsLogged}
use nusantara_panel.Http.Backups.{placed, handle_restore_backup}
use nusantara_panel.Updater.System.{Ran}
use nusantara_panel.Backup.{Service}
use nusantara_panel.Http.Accounts.{Principal, handle_login, handle_logout, require_auth}
use nusantara_panel.Http.Routes.{AdminRoute, Route, for_admin, serve, handle_user}
use nusantara_panel.Http.Access.{Shown, MayUse, TurnedAway, handle, serve-cases}
use nusantara_panel.Http.Lockout.{Failing, none_yet, failed, handle_login_locked}
use nusantara_panel.Http.Logout.{serve-after_logout}

abbrev empty_text : Text → Text
empty_text key = []

abbrev pair_of : Text → Option LoginRequest
pair_of body = elim (cut body b':') [
  | none ↦ none
  | some (name, secret) ↦ some (record { username = name; password = secret })
]

abbrev decoders : Decoders
decoders = record {
  login = pair_of;
  change_password = λ body. none;
  create_site = λ body. none;
  update_site_content = λ body. none;
  upload_site_file = λ body. none;
  site_dir = λ body. none;
  create_database = λ body. none;
  create_database_user = λ body. none;
  restore_backup = λ body. some body;
  issue_ssl = λ body. none;
}

abbrev silent : Ran
silent = record { output = []; failure = none }

-- A dry run
abbrev backups : Service
backups = record { apply = false; state_file = codes "/d/s"; backup_dir = codes "/b" }

abbrev pub api : Api (Table Text) ℕ
api = record {
  auth = record service { codec = one_snapshot (record logged_in { sessions = [] }) };
  jobs = record { codec = service.codec; payloads = bare_payloads; provisioner = none };
  os = memory;
  db = none;
  sites_apply = true;
  backup_dir = codes "/b";
  read_dir = λ path files. err (not_exist path);
  archiver = plain_archiver;
  backup = some backups;
  ssl = none;
  certbot = record {
    run = λ command args n. (silent, n);
    stat = λ path n. none;
    remove_all = λ path n. n;
  };
  services_monitor = none;
  systemctl = λ command n. (silent, n);
  updater = none;
  updates = record { run = λ command n. (silent, n); is_uri = λ s. false; parse_time = λ s. none };
  build = record {
    version = codes "1";
    commit = [];
    build_time = [];
    go_version = [];
    hostname = [];
    goos = codes "linux";
    goarch = [];
    num_cpu = 4;
  };
  decoders = decoders;
  marshal = λ metadata. ok [];
  base64 = λ s. some s;
  type_by_extension = λ e. [];
  split_host_port = λ s. none;
}

abbrev pub env : Env
env = record {
  auth_now = 60;
  auth_save = saved;
  limit_now = 60;
  fail_now = 61;
  login_now = 60;
  session_now = 60;
  session_save = saved;
  token = ok token;
  change_now = 60;
  change_save = saved;
  audit_now = 60;
  audit_save = saved;
  site = record {
    now = 60;
    job_now = 60;
    failed_now = 60;
    site_id = ok (codes "s9");
    job_id = ok (codes "j9");
    site_save = saved;
    job_save = saved;
    failed_save = saved;
    how = sends;
  };
  backup = record { done = none; now = 60; stamp = λ now. codes "t"; working_dir = none };
  archive_now = 60;
  monitor_now = 60;
  update = record { checked_at = 60; now = 60; started_at = 60 };
  status_now = 60;
}

abbrev bearer_header : Text → Text
bearer_header key = if text_eq key (codes "Authorization") then codes "Bearer tok" else []

abbrev pub request : Request
request = record {
  remote_addr = codes "10.0.0.7";
  header = bearer_header;
  query = empty_text;
  path_value = empty_text;
  body = codes "ann:guess";
}

abbrev strict : LoginLimiter
strict = record { max_fail = 1; window = 100; entries = [] }

abbrev pub world : World (Table Text) ℕ
world = record {
  repo = with_session;
  jobs = new_service;
  limiter = strict;
  files = [];
  machine = record { nodes = []; faults = [] };
  system = 0;
}

admin_only : for_admin AdminRoute.list_jobs ≢ Route.login
admin_only e = cc

serve-cases_example :
    TurnedAway api env request world (serve api env request (for_admin AdminRoute.list_jobs) world)
    ⊎ ((p : Principal) × Shown api env request p world
        × MayUse api env request (for_admin AdminRoute.list_jobs) p
        × (serve api env request (for_admin AdminRoute.list_jobs) world
            ≡ handle api env request (for_admin AdminRoute.list_jobs) p world))
serve-cases_example = serve-cases api env request (for_admin AdminRoute.list_jobs) world admin_only

abbrev after_logout : World (Table Text) ℕ
after_logout = (handle_logout api env (record { user = ann; token = token }) world).1

serve-after_logout_example :
    serve api env request (for_admin AdminRoute.list_jobs) after_logout
    ≡ some (Replies.unauthorized, after_logout)
unfolding serve handle_user require_auth bearer_token cut equal_fold text_eq trim_space authenticate
    get_session_by_token_hash get_user_by_id lookup hash_token hex_encode handle_logout delete save
    replace_file logout delete_session_by_token_hash Snapshot-discrete ℕ_discrete
serve-after_logout_example =
    serve-after_logout api env env request request (for_admin AdminRoute.list_jobs) world
      after_logout refl refl admin_only

abbrev after_failure : World (Table Text) ℕ
after_failure = (handle_login api env request world).1

one_failure : Failing api (codes "10.0.0.7:ann") 1 100 (61 ∷ []) after_failure
unfolding handle_login login_limit_key client_ip cut text_eq trim_space to_lower allow lookup login
    get_user_by_username verify has_prefix
one_failure =
    failed (none_yet world refl refl refl) env request
      (record { username = codes "ann"; password = codes "guess" }) refl refl (omega arith) refl

handle_login_locked_example :
    handle_login api
      (record env { limit_now = 90 })
      (record request { body = codes "ann:letmein99" })
      after_failure
    ≡ (
      write_error 429 (codes "too many login attempts"),
      record after_failure { limiter = (allow (codes "10.0.0.7:ann") 90 after_failure.limiter).1 },
    )
unfolding login_limit_key client_ip cut text_eq trim_space to_lower
handle_login_locked_example =
    handle_login_locked api (codes "10.0.0.7:ann") 1 100 61 [] after_failure
      (record env { limit_now = 90 }) (record request { body = codes "ann:letmein99" })
      (record { username = codes "ann"; password = codes "letmein99" }) one_failure (omega arith)
      (omega arith) refl refl

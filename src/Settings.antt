-- ===== src/Settings.antt =====
-- internal/config/config.go: the settings of the panel, read from the environment. A variable that is
-- not set reads as the empty text.
pub mod Ranges
mod Tests
use nusantara_panel.Base.{
  ℕ, ℤ, pos, negsuc, Text, codes, [], ◌∷◌, List, Bool, true, false, Option, none, some, Result, ok,
  err, text_eq, leb, any, if◌then◌else◌, Parsed, number, out_of_range, bad_syntax, atoi, ◌>>=◌,
}
use nusantara_panel.Sites.Paths.{join_path}

pub record Config : Type 0 where
  pub address : Text
  pub data_dir : Text
  pub db_path : Text
  pub provision_apply : Bool
  pub nginx_available_dir : Text
  pub nginx_enabled_dir : Text
  pub nginx_test_command : Text
  pub nginx_reload_command : Text
  pub certbot_command : Text
  pub mysql_command : Text
  pub backup_dir : Text
  pub log_level : Text
  pub shutdown_secs : ℤ
  pub token_ttl_hours : ℤ
  pub allow_non_ubuntu : Bool
  pub bootstrap_admin_username : Text
  pub bootstrap_admin_password : Text
  pub update_repo_url : Text
  pub update_branch : Text
  pub update_script_url : Text
  pub update_unit_name : Text
  pub update_log_lines : ℤ
  pub update_cooldown : ℤ

-- The variable and its value.
pub data Error : Type 0 where
  invalid : Text → Text → Error

abbrev pub Environment : Type 0
Environment = Text → Text

abbrev pub or_default : Text → Text → Text
or_default [] fallback = fallback
or_default (c ∷ v) fallback = c ∷ v

unfoldable pub getenv : Environment → Text → Text → Text
getenv env key fallback = or_default (env key) fallback

abbrev one_of : List Text → Text → Bool
one_of texts v = any (λ t. text_eq v t) texts

-- strconv.ParseBool
unfoldable pub parse_bool : Text → Option Bool
unfolding text_eq
parse_bool v =
    if one_of (codes "1" ∷ codes "t" ∷ codes "T" ∷ codes "true" ∷ codes "TRUE" ∷ codes "True" ∷ [])
      v
    then some true
    else if one_of
        (codes "0" ∷ codes "f" ∷ codes "F" ∷ codes "false" ∷ codes "FALSE" ∷ codes "False" ∷ []) v
    then some false
    else none

abbrev pub is_at_least : ℕ → ℤ → Bool
is_at_least n (pos m) = leb n m
is_at_least n (negsuc m) = false

abbrev pub number_from : ℕ → Error → Parsed → Result Error ℤ
number_from least wrong (number n) = if is_at_least least n then ok n else err wrong
number_from least wrong (out_of_range n) = err wrong
number_from least wrong bad_syntax = err wrong

abbrev pub given_number : Text → ℕ → ℤ → Text → Result Error ℤ
given_number name least fallback [] = ok fallback
given_number name least fallback (c ∷ v) = number_from least (invalid name (c ∷ v)) (atoi (c ∷ v))

-- A variable with a number that must not be less than another
unfoldable pub read_number : Environment → Text → ℕ → ℤ → Result Error ℤ
unfolding atoi
read_number env name least fallback = given_number name least fallback (env name)

abbrev pub bool_or : Error → Option Bool → Result Error Bool
bool_or wrong none = err wrong
bool_or wrong (some b) = ok b

abbrev pub given_bool : Text → Bool → Text → Result Error Bool
given_bool name fallback [] = ok fallback
given_bool name fallback (c ∷ v) = bool_or (invalid name (c ∷ v)) (parse_bool (c ∷ v))

unfoldable pub read_bool : Environment → Text → Bool → Result Error Bool
unfolding parse_bool
read_bool env name fallback = given_bool name fallback (env name)

abbrev pub settings : Environment → ℤ → Bool → ℤ → Bool → ℤ → ℤ → Config
settings env secs allow ttl apply lines cooldown =
    let dir = getenv env (codes "NUSANTARA_DATA_DIR") (codes "/var/lib/nusantara-panel") in
    record {
      address = getenv env (codes "NUSANTARA_ADDR") (codes ":8080");
      data_dir = dir;
      db_path =
          getenv env (codes "NUSANTARA_DB_PATH") (join_path dir (codes "nusantara_state.json"));
      provision_apply = apply;
      nginx_available_dir =
          getenv env (codes "NUSANTARA_NGINX_SITES_AVAILABLE_DIR")
            (codes "/etc/nginx/sites-available");
      nginx_enabled_dir =
          getenv env (codes "NUSANTARA_NGINX_SITES_ENABLED_DIR") (codes "/etc/nginx/sites-enabled");
      nginx_test_command = getenv env (codes "NUSANTARA_NGINX_TEST_COMMAND") (codes "nginx -t");
      nginx_reload_command =
          getenv env (codes "NUSANTARA_NGINX_RELOAD_COMMAND") (codes "systemctl reload nginx");
      certbot_command = getenv env (codes "NUSANTARA_CERTBOT_COMMAND") (codes "certbot");
      mysql_command = getenv env (codes "NUSANTARA_MYSQL_COMMAND") (codes "mysql");
      backup_dir = getenv env (codes "NUSANTARA_BACKUP_DIR") (codes "/var/backups/nusantara-panel");
      log_level = getenv env (codes "NUSANTARA_LOG_LEVEL") (codes "info");
      shutdown_secs = secs;
      token_ttl_hours = ttl;
      allow_non_ubuntu = allow;
      bootstrap_admin_username =
          getenv env (codes "NUSANTARA_BOOTSTRAP_ADMIN_USERNAME") (codes "admin");
      bootstrap_admin_password = getenv env (codes "NUSANTARA_BOOTSTRAP_ADMIN_PASSWORD") [];
      update_repo_url =
          getenv env (codes "NUSANTARA_UPDATE_REPO_URL")
            (codes "https://github.com/wayangm/Nusantara-Panel.git");
      update_branch = getenv env (codes "NUSANTARA_UPDATE_BRANCH") (codes "main");
      update_script_url =
          getenv env (codes "NUSANTARA_UPDATE_SCRIPT_URL")
            (codes "https://raw.githubusercontent.com/wayangm/Nusantara-Panel/main/install.sh");
      update_unit_name =
          getenv env (codes "NUSANTARA_UPDATE_UNIT_NAME") (codes "nusantara-panel-updater");
      update_log_lines = lines;
      update_cooldown = cooldown;
    }

-- `on_linux` is whether runtime.GOOS is "linux".
unfoldable pub load_from_env : Bool → Environment → Result Error Config
load_from_env on_linux env = do
  secs ← read_number env (codes "NUSANTARA_SHUTDOWN_SECS") 1 (pos 10)
  allow ← read_bool env (codes "NUSANTARA_ALLOW_NON_UBUNTU") false
  ttl ← read_number env (codes "NUSANTARA_TOKEN_TTL_HOURS") 1 (pos 24)
  apply ← read_bool env (codes "NUSANTARA_PROVISION_APPLY") on_linux
  lines ← read_number env (codes "NUSANTARA_UPDATE_LOG_LINES") 1 (pos 80)
  cooldown ← read_number env (codes "NUSANTARA_UPDATE_COOLDOWN_SECS") 0 (pos 20)
  ok (settings env secs allow ttl apply lines cooldown)

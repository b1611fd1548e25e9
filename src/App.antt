-- ===== src/App.antt =====
-- internal/app/app.go: how `Run` starts the panel, up to the server. What it finds of the system, the
-- random identifier, the clock and the outcomes of the saves are arguments. The text of the errors of
-- the store and of the accounts is kept; what an attempt that fails leaves of the file is left out.
pub mod Started
mod Tests
use nusantara_panel.Base.{
  ◌+◌, ◌-◌, negsuc, ◌%◌, ltb, ℤ, ℕ, ◌*◌, ◌^◌, Text, codes, ◌++◌, [], ◌∷◌, Bool, Option, none, some,
  Result, ok, err, ◌&&◌, not, pos, if◌then◌else◌, Unicode,
}
use nusantara_panel.Store
use nusantara_panel.Store.{Time, error_text}
use nusantara_panel.Store.FileDb.Snapshot.{Codec, Outcome, Reading, Disk, Repository, new}
use nusantara_panel.Store.FileDb.Methods.{migrate}
use nusantara_panel.Password.{Bcrypt}
use nusantara_panel.Auth
use nusantara_panel.Auth.{ensure_bootstrap_admin}
use nusantara_panel.Http.Replies.{auth_message}
use nusantara_panel.Settings.{Config}
use nusantara_panel.Platform.{Compatibility}
use nusantara_panel.Nginx.{NginxConfig}
use nusantara_panel.Jobs
use nusantara_panel.Monitor.{ServicesMonitor, new_services_monitor}
use nusantara_panel.Certificates
use nusantara_panel.Backup
use nusantara_panel.Updater
use nusantara_panel.Updater.Launch.{positive}
use nusantara_panel.RateLimit.{LoginLimiter, new_login_limiter}

-- What a start finds, with the packages that the accounts are built on.
pub record Surroundings : Type 0 where
  pub check : Compatibility
  pub codec : Codec
  pub bcrypt : Bcrypt
  pub sha256 : Text → Text
  -- the errors of os.MkdirAll, for the directory of the data and in `New`
  pub data_dir_fails : Option Text
  pub repo_dir_fails : Option Text
  pub reading : Reading
  pub disk : Disk
  pub load_save : Outcome
  pub migrate_save : Outcome
  pub admin_save : Outcome
  pub admin_id : Result Text Text
  pub now : Time

-- The parts that a start puts together.
pub record Panel : Type 0 where
  pub repo : Repository
  pub auth : Auth.Service
  pub provision : NginxConfig
  pub jobs : Jobs.Service
  pub sites_backup_dir : Text
  pub sites_apply : Bool
  pub monitor : ServicesMonitor
  pub ssl : Certificates.Service
  pub backup : Backup.Service
  pub updater : Updater.Service
  pub login_limiter : LoginLimiter

-- An int64 with the given lowest 64 bits
abbrev signed_bits : ℕ → ℤ
signed_bits n = if ltb n (2 ^ 63) then pos n else negsuc (2 ^ 64 - 1 - n)

-- time.Duration(hours) * time.Hour, which wraps around
unfoldable pub hours_of : ℤ → ℤ
hours_of (pos n) = signed_bits (n * (3600 * 10 ^ 9) % 2 ^ 64)
hours_of (negsuc n) = signed_bits ((2 ^ 64 - (n + 1) * (3600 * 10 ^ 9) % 2 ^ 64) % 2 ^ 64)

abbrev pub auth_service : Config → Surroundings → Auth.Service
auth_service c found = record {
  codec = found.codec;
  token_ttl = hours_of c.token_ttl_hours;
  bcrypt = found.bcrypt;
  sha256 = found.sha256;
}

abbrev pub updater_config : Config → Updater.Config
updater_config c = record {
  repo_url = c.update_repo_url;
  branch = c.update_branch;
  script_url = c.update_script_url;
  unit_name = c.update_unit_name;
  log_lines = c.update_log_lines;
  cooldown = c.update_cooldown;
}

module _ ⦃u : Unicode⦄ where
  abbrev pub panel : Config → Surroundings → Repository → Panel
  panel c found r = record {
    repo = r;
    auth = auth_service c found;
    provision = record {
      apply = c.provision_apply;
      available_dir = c.nginx_available_dir;
      enabled_dir = c.nginx_enabled_dir;
      test_command = c.nginx_test_command;
      reload_command = c.nginx_reload_command;
    };
    jobs = Jobs.start Jobs.new_service;
    sites_backup_dir = c.backup_dir;
    sites_apply = c.provision_apply;
    monitor = new_services_monitor [] (pos (3 * 10 ^ 9));
    ssl = Certificates.new_service c.provision_apply c.certbot_command (pos (120 * 10 ^ 9));
    backup = record {
      apply = c.provision_apply;
      state_file = c.db_path;
      backup_dir = c.backup_dir;
    };
    updater = Updater.new_service c.provision_apply (updater_config c);
    login_limiter = new_login_limiter (pos 5) (pos (300 * 10 ^ 9));
  }

  abbrev pub admin_ensured :
      Config → Surroundings → Result Auth.Error (Unit {0}) × Repository → Result Text Panel
  admin_ensured c found (err e, r) = err (codes "bootstrap admin: " ++ auth_message e)
  admin_ensured c found (ok _, r) = ok (panel c found r)

  abbrev pub with_admin :
      Config → Surroundings → Repository → Result Auth.Error (Unit {0}) × Repository
  with_admin c found r =
      ensure_bootstrap_admin (auth_service c found) found.admin_save found.now found.admin_id
        c.bootstrap_admin_username c.bootstrap_admin_password r

  abbrev pub migrated :
      Config → Surroundings → Result Store.Error (Unit {0}) × Repository → Result Text Panel
  migrated c found (err e, r) = err (codes "migrate repository: " ++ error_text e)
  migrated c found (ok _, r) = admin_ensured c found (with_admin c found r)

  unfoldable pub start_up : Config → Surroundings → Result Text Panel
  start_up c found =
      if not found.check.supported && not c.allow_non_ubuntu
      then err (
          codes "unsupported host OS ("
          ++ found.check.id
          ++ codes " "
          ++ found.check.version_id
          ++ codes "), set NUSANTARA_ALLOW_NON_UBUNTU=true for non-production runs")
      else elim found.data_dir_fails [
        | some cause ↦ err (codes "create data dir: " ++ cause)
        | none ↦
            elim (new found.codec found.repo_dir_fails found.reading found.load_save c.db_path
              found.disk) [
                | err e ↦ err (codes "init repository: " ++ error_text e)
                | ok r ↦ migrated c found (migrate found.codec found.migrate_save r)
              ]
      ]

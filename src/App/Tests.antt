-- ===== src/App/Tests.antt =====
-- A first start of the panel.
use nusantara_panel.Base.{
  ◌≡◌, refl, codes, [], ◌∷◌, true, false, none, some, ok, err, pos, ascii_tables, text_eq,
  trim_space, to_lower,
}
use nusantara_panel.Base.Table.{lookup, insert}
use nusantara_panel.Store.FileDb.Snapshot.{
  saved, readable, save, replace_file, new, load, Codec, Repository, new_snapshot,
}
use nusantara_panel.Store.FileDb.Methods.{migrate, create_user, count_users}
use nusantara_panel.Auth.{ensure_bootstrap_admin}
use nusantara_panel.Password.Tests.{plain_bcrypt}
use nusantara_panel.Store.{User, role_admin}
use nusantara_panel.Password.{hash}
use nusantara_panel.Settings.{Config}
use nusantara_panel.App.{Surroundings, panel, start_up}
use nusantara_panel.App.Started.{IsFresh, start_up-IsFresh}

abbrev config : Config
config = record {
  address = codes ":8080";
  data_dir = codes "/d";
  db_path = codes "/d/s";
  provision_apply = true;
  nginx_available_dir = codes "/a";
  nginx_enabled_dir = codes "/e";
  nginx_test_command = [];
  nginx_reload_command = [];
  certbot_command = [];
  mysql_command = [];
  backup_dir = codes "/b";
  log_level = [];
  shutdown_secs = pos 5;
  token_ttl_hours = pos 24;
  allow_non_ubuntu = false;
  bootstrap_admin_username = codes "Admin";
  bootstrap_admin_password = codes "letmein99";
  update_repo_url = [];
  update_branch = [];
  update_script_url = [];
  update_unit_name = [];
  update_log_lines = pos 80;
  update_cooldown = pos 0;
}

never : ¬ (false ≡ true)
never h = cc

-- A codec that writes every snapshot as the empty text, and promises nothing of reading it.
abbrev blank_codec : Codec
blank_codec = record {
  encode = λ s. ok [];
  decode = λ raw. err [];
  plain = λ s. false;
  decode-encode = λ s raw p e. absurd (never p);
}

abbrev found : Surroundings
found = record {
  check = record {
    goos = codes "linux";
    id = codes "ubuntu";
    version_id = codes "22.04";
    supported = true;
  };
  codec = blank_codec;
  bcrypt = plain_bcrypt;
  sha256 = λ s. s;
  data_dir_fails = none;
  repo_dir_fails = none;
  reading = readable;
  disk = record { state = none; tmp = none };
  load_save = saved;
  migrate_save = saved;
  admin_save = saved;
  admin_id = ok (codes "u1");
  now = 7;
}

abbrev first_admin : User
first_admin = record {
  id = codes "u1";
  username = codes "Admin";
  password_hash = codes "$2a$letmein99";
  role = role_admin;
  is_active = true;
  created_at = 7;
  updated_at = 7;
}

abbrev first_repo : Repository
first_repo = record {
  path = codes "/d/s";
  snap = record new_snapshot {
    users = (codes "u1", first_admin) ∷ [];
    username_index = (codes "admin", codes "u1") ∷ [];
  };
  disk = record { state = some []; tmp = none };
}

start_up-IsFresh_example : IsFresh config (panel config found first_repo)
unfolding start_up new load migrate save replace_file ensure_bootstrap_admin count_users hash
    trim_space text_eq create_user lookup insert to_lower
start_up-IsFresh_example = start_up-IsFresh config found (panel config found first_repo) refl refl

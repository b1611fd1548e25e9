-- ===== src/Nginx/Tests.antt =====
-- The provisioner on a small machine.
use nusantara_panel.Base.{
  to_lower, trim_space, replace_all, true, Text, codes, none, some, [], ◌∷◌, ◌≡◌, refl, text_eq,
  ne_of_text_eq, if◌then◌else◌, ascii_tables,
}
use nusantara_panel.Base.Table.{lookup}
use nusantara_panel.Store.{Site}
use nusantara_panel.Sites.Paths.{join_path, clean}
use nusantara_panel.Nginx.{NginxConfig, sanitize_conf_name}
use nusantara_panel.Machine.{Machine, file, link}
use nusantara_panel.Nginx.Steps.{Shows}
use nusantara_panel.Nginx.Provision.{
  Exec, activate, run_command, deprovision_site, conf_path, link_path,
}
use nusantara_panel.Nginx.Rollback.{Verdict, activate-restores}
use nusantara_panel.Nginx.Removal.{deprovision_site-removes}

abbrev config : NginxConfig
config = record {
  apply = true;
  available_dir = codes "/a";
  enabled_dir = codes "/e";
  test_command = codes "t";
  reload_command = codes "r";
}

-- The reload fails.
abbrev exec : Exec
exec [] nodes = none
exec (word ∷ args) nodes =
    if text_eq word (codes "r") then some (codes "exit status 1", []) else none

abbrev conf : Text
conf = codes "/a/x.id.conf"

abbrev at_link : Text
at_link = codes "/e/x.id.conf"

abbrev machine : Machine
machine = record { nodes = (conf, file (codes "old")) ∷ (at_link, link conf) ∷ []; faults = [] }

shown : Shows conf at_link (some (codes "old")) (some conf) machine
unfolding lookup
shown = record { no_faults = refl; conf_node = refl; link_node = refl; no_tmp = refl }

activate-restores_example :
    (new : Machine) × Shows conf at_link (some (codes "new")) (some conf) new
    × Verdict
        (Shows conf at_link (some (codes "old")) (some conf))
        (activate config exec conf at_link (codes "new") machine)
        new
        (run_command exec (codes "t") new).0
        (run_command exec (codes "r") new).0
unfolding text_eq
activate-restores_example =
    activate-restores config exec conf at_link (codes "new") (ne_of_text_eq _ _ refl)
      (ne_of_text_eq _ _ refl) (some (codes "old")) (some conf) machine (ne_of_text_eq _ _ refl)
      shown

abbrev site : Site
site = record {
  id = codes "s";
  created_by = codes "u";
  domain = codes "X.id";
  root_path = codes "/var/www/x";
  runtime = codes "php";
  status = codes "active";
  created_at = 0;
  updated_at = 0;
}

deprovision_site-removes_example :
    (new : Machine) × Shows (conf_path config site) (link_path config site) none none new
    × Verdict
        (λ n. n ≡ new)
        (deprovision_site config exec site machine)
        new
        (run_command exec (codes "t") new).0
        (run_command exec (codes "r") new).0
unfolding text_eq lookup sanitize_conf_name replace_all trim_space to_lower join_path clean
deprovision_site-removes_example =
    deprovision_site-removes config exec site (some (codes "old")) (some conf) machine refl
      (ne_of_text_eq _ _ refl) (ne_of_text_eq _ _ refl) (ne_of_text_eq _ _ refl)
      (record { no_faults = refl; conf_node = refl; link_node = refl; no_tmp = refl })

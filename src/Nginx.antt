-- ===== src/Nginx.antt =====
-- internal/provision/nginx.go: the settings, the names and the texts of the configuration of a site.
-- Machine has the file system that the provisioner works on, Provision what it does there.
pub mod Provision
pub mod Removal
pub mod Rollback
pub mod Steps
mod Tests
use nusantara_panel.Base.{
  Text, codes, [], ◌∷◌, ◌++◌, List, Bool, text_eq, replace_all, if◌then◌else◌, Unicode, to_lower,
  trim_space,
}
use nusantara_panel.Store.{Site}

pub record NginxConfig : Type 0 where
  pub apply : Bool
  pub available_dir : Text
  pub enabled_dir : Text
  pub test_command : Text
  pub reload_command : Text

module _ ⦃u : Unicode⦄ where
  unfoldable pub sanitize_conf_name : Text → Text
  unfolding replace_all
  sanitize_conf_name domain =
      replace_all (replace_all (trim_space (to_lower domain)) (codes "..") (codes ".")) (codes "/")
        (codes "-")

-- Lines, each with a line feed behind it.
abbrev pub unlines : List Text → Text
unlines [] = []
unlines (line ∷ rest) = line ++ (10 ∷ unlines rest)

abbrev proxied : Text → Text
proxied port =
    unlines (
      codes "    location / {"
      ∷ (codes "        proxy_pass http://127.0.0.1:" ++ port ++ codes ";")
      ∷ codes "        proxy_http_version 1.1;"
      ∷ codes "        proxy_set_header Host $host;"
      ∷ codes "        proxy_set_header X-Real-IP $remote_addr;"
      ∷ codes "        proxy_set_header X-Forwarded-For $proxy_add_x_forwarded_for;"
      ∷ codes "        proxy_set_header X-Forwarded-Proto $scheme;"
      ∷ [])
    ++ codes "    }"

abbrev static_core : Text
static_core =
    unlines (codes "    location / {" ∷ codes "        try_files $uri $uri/ =404;" ∷ [])
    ++ codes "    }"

abbrev php_core : Text → Text
php_core root_path =
    unlines (
      codes "    location / {"
      ∷ codes "        try_files $uri $uri/ /index.php?$query_string;"
      ∷ codes "    }"
      ∷ []
      ∷ codes "    location ~ \\.php$ {"
      ∷ codes "        include fastcgi_params;"
      ∷ (codes "        fastcgi_param SCRIPT_FILENAME "
          ++ root_path
          ++ codes "$fastcgi_script_name;")
      ∷ codes "        fastcgi_pass unix:/run/php/php8.1-fpm.sock;"
      ∷ codes "        fastcgi_index index.php;"
      ∷ [])
    ++ codes "    }"

unfoldable pub runtime_server_core : Text → Text → Text
runtime_server_core runtime root_path =
    if text_eq runtime (codes "node")
    then proxied (codes "3000")
    else if text_eq runtime (codes "python")
    then proxied (codes "8000")
    else if text_eq runtime (codes "static")
    then static_core
    else php_core root_path

unfoldable pub render_nginx_server : Site → Text
unfolding runtime_server_core
render_nginx_server site = unlines (
    codes "server {"
    ∷ codes "    listen 80;"
    ∷ codes "    listen [::]:80;"
    ∷ (codes "    server_name " ++ site.domain ++ codes ";")
    ∷ []
    ∷ (codes "    root " ++ site.root_path ++ codes ";")
    ∷ codes "    index index.php index.html index.htm;"
    ∷ []
    ∷ codes "    location ^~ /.well-known/acme-challenge/ {"
    ∷ codes "        default_type text/plain;"
    ∷ codes "        try_files $uri =404;"
    ∷ codes "    }"
    ∷ []
    ∷ runtime_server_core site.runtime site.root_path
    ∷ codes "}"
    ∷ [])

abbrev label_of : Text → Text
label_of trimmed = if text_eq trimmed [] then codes "site" else trimmed

abbrev page : Text → Text → List Text
page label note =
    codes "<!doctype html>"
    ∷ codes "<html lang=\"en\">"
    ∷ codes "<head>"
    ∷ codes "  <meta charset=\"utf-8\">"
    ∷ codes "  <meta name=\"viewport\" content=\"width=device-width, initial-scale=1\">"
    ∷ (codes "  <title>" ++ label ++ codes "</title>")
    ∷ codes "</head>"
    ∷ codes "<body>"
    ∷ (codes "  <h1>" ++ label ++ codes " is live</h1>")
    ∷ (codes "  <p>" ++ note ++ codes "</p>")
    ∷ codes "</body>"
    ∷ codes "</html>"
    ∷ []

module _ ⦃u : Unicode⦄ where
  unfoldable pub default_static_index : Text → Text
  default_static_index domain =
      unlines (page (label_of (trim_space domain)) (codes "Provisioned by Nusantara Panel."))

  unfoldable pub default_php_index : Text → Text
  default_php_index domain = unlines (
      codes "<?php"
      ∷ codes "header('Content-Type: text/html; charset=utf-8');"
      ∷ codes "?>"
      ∷ page (label_of (trim_space domain)) (codes "Provisioned by Nusantara Panel (PHP runtime)."))

-- ===== src/Settings/Tests.antt =====
-- The settings of small environments.
use nusantara_panel.Base.{
  codes, [], text_eq, if◌then◌else◌, true, err, ◌≡◌, refl, atoi, ascii_tables,
}
use nusantara_panel.Settings.{Environment, load_from_env, read_number, read_bool, invalid}
use nusantara_panel.Settings.Ranges.{Loaded, load_from_env-Loaded}

-- A life of the tokens that is no number of hours.
abbrev environment : Environment
environment name = if text_eq name (codes "NUSANTARA_TOKEN_TTL_HOURS") then codes "0" else []

refused :
    load_from_env true environment ≡ err (invalid (codes "NUSANTARA_TOKEN_TTL_HOURS") (codes "0"))
unfolding load_from_env read_number read_bool text_eq atoi
refused = refl

load_from_env-Loaded_example : Loaded environment (load_from_env true environment)
load_from_env-Loaded_example = load_from_env-Loaded true environment

-- ===== src/Updater/Tests.antt =====
-- The updater on a small system.
use nusantara_panel.Base.{
  ◌^◌, ◌*◌, text_eq, trim_space, atoi, cut, equal_fold, ◌*◌, pos, Text, codes, ◌∷◌, ◌++◌, none,
  some, err, ◌≡◌, ◌≤◌, refl, true, ascii_tables, arith,
}
use nusantara_panel.Base.Table.{lookup, insert}
use nusantara_panel.Updater.{
  parse_int, validate_config, Service, cooling, shell_quote, cooldown_wait,
}
use nusantara_panel.Updater.System.{status, parse_properties, Host}
use nusantara_panel.Updater.Launch.{Clock, start, launch}
use nusantara_panel.Updater.Quoting.{read_word, plain, shell_quote-read_word}
use nusantara_panel.Updater.Running.{start_after_wait}

shell_quote-read_word_example :
    read_word plain (shell_quote (codes "a' $(b)") ++ (32 ∷ codes "c"))
    ≡ some (codes "a' $(b)", codes "c")
shell_quote-read_word_example = shell_quote-read_word (codes "a' $(b)") (codes "c")

abbrev service : Service
service = record {
  enabled = true;
  cfg = record {
    repo_url = codes "https://g.id/p";
    branch = codes "main";
    script_url = codes "https://g.id/s";
    unit_name = codes "up";
    log_lines = pos 80;
    cooldown = pos 60;
  };
}

-- A unit that ended at the second 100.
abbrev printed : Text
printed =
    codes "LoadState=loaded\nActiveState=active\nSubState=exited\nResult=success\n"
    ++ codes "ExecMainStatus=0\nStateChangeTimestamp=T\n"

abbrev host : Host (Unit {0})
host = record {
  run = λ words f. (record { output = printed; failure = none }, f);
  is_uri = λ t. true;
  parse_time = λ ts. some (100 * 10 ^ 9);
}

abbrev clock : Clock
clock = record { checked_at = 0; now = 130 * 10 ^ 9; started_at = 0 }

abbrev after_wait : Clock
after_wait = record { checked_at = 0; now = 160 * 10 ^ 9; started_at = 0 }

start_after_wait_example :
    (start host service clock tt ≡ (err (cooling 30), tt))
    × (30 ≤ 60)
    × (start host service after_wait tt ≡ launch host service after_wait tt)
unfolding validate_config status cooldown_wait text_eq trim_space parse_properties parse_int atoi
    cut lookup insert equal_fold
start_after_wait_example =
    start_after_wait host service clock _ tt tt refl refl refl refl (omega arith)
      (λ t h. grind arith)

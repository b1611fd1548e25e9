-- ===== src/Updater.antt =====
-- internal/updater/service.go: the settings of the updater, its records and its pure helpers. System
-- has the system and `Status`, Launch `Start`, Check `Check`, and Quoting the reader of a shell.
pub mod Quoting
pub mod System
pub mod Launch
pub mod Check
pub mod Running
mod Tests
use nusantara_panel.Base.{
  bad_syntax, between, is_lower, ◌^◌, is_digit, out_of_range, is_upper, ◌&&◌, number, ◌/◌, any,
  Parsed, trim_suffix, atoi, ◌+◌, ◌-◌, suc, ◌==◌, not, replace_all, ◌||◌, equal_fold, ℕ, ℤ, pos,
  negsuc, Text, codes, [], ◌∷◌, ◌++◌, List, Bool, true, false, Option, none, some, Result, ok, err,
  text_eq, ltb, length, all, drop, if◌then◌else◌, Unicode, trim_space,
}
use nusantara_panel.Store.{Time, decimal}

pub record Config : Type 0 where
  pub repo_url : Text
  pub branch : Text
  pub script_url : Text
  pub unit_name : Text
  pub log_lines : ℤ
  pub cooldown : ℤ

pub record Service : Type 0 where
  pub enabled : Bool
  pub cfg : Config

pub data Error : Type 0 where
  disabled already_running : Error
  cooling : ℕ → Error
  invalid_config failed : Text → Error

pub record StartResult : Type 0 where
  pub unit : Text
  pub repo_url : Text
  pub branch : Text
  pub script_url : Text
  pub started_at : Time

pub record Status : Type 0 where
  pub unit : Text
  pub exists : Bool
  pub running : Bool
  pub active_state : Text
  pub sub_state : Text
  pub result : Text
  pub exec_main_status : ℤ
  pub state_change_timestamp : Text
  pub success : Bool
  pub failed : Bool
  pub last_checked_at : Time
  pub logs : List Text

pub record CheckResult : Type 0 where
  pub repo_url : Text
  pub branch : Text
  pub current_version : Text
  pub current_commit : Text
  pub remote_commit : Text
  pub status : Text
  pub up_to_date : Bool
  pub update_available : Bool
  pub note : Text
  pub last_checked_at : Time

abbrev one_of : Text → ℕ → Bool
one_of chars c = any (λ d. d == c) chars

-- branchRe and unitNameRe: one or more letters, digits and the characters listed
abbrev is_word_of : Text → Text → Bool
is_word_of others s =
    not (text_eq s []) && all (λ c. is_upper c || is_lower c || is_digit c || one_of others c) s

-- The wait in seconds, for a cooldown that is not negative. Times are in nanoseconds.
abbrev pub wait_since : ℕ → Time → Option Time → ℕ
wait_since cooldown now none = 0
wait_since cooldown now (some parsed) =
    if ltb now parsed then cooldown else cooldown - (now - parsed) / 10 ^ 9

abbrev positive_or : ℕ → ℤ → ℤ
positive_or n (pos m) = if m == 0 then pos n else pos m
positive_or n (negsuc m) = pos n

abbrev is_negative : ℤ → Bool
is_negative (pos n) = false
is_negative (negsuc n) = true

abbrev value_of : Parsed → ℤ
value_of (number n) = n
value_of (out_of_range n) = n
value_of bad_syntax = pos 0

module _ ⦃u : Unicode⦄ where
  unfoldable pub normalize_unit_name : Text → Text
  unfolding trim_suffix
  normalize_unit_name v = trim_suffix (trim_space v) (codes ".service")

  unfoldable pub new_service : Bool → Config → Service
  unfolding normalize_unit_name
  new_service enabled cfg = record {
    enabled = enabled;
    cfg = record cfg {
      log_lines = positive_or 80 cfg.log_lines;
      unit_name = normalize_unit_name cfg.unit_name;
    };
  }

  abbrev is_blank : Text → Bool
  is_blank s = text_eq (trim_space s) []

  -- `is_uri` is url.ParseRequestURI: whether it takes the text.
  unfoldable pub validate_config : (Text → Bool) → Config → Result Error (Unit {0})
  validate_config is_uri c =
      if is_blank c.repo_url || is_blank c.script_url || is_blank c.branch
      then err (invalid_config (codes "empty updater repo/script/branch"))
      else if not (is_uri c.repo_url)
      then err (invalid_config (codes "invalid repo url"))
      else if not (is_uri c.script_url)
      then err (invalid_config (codes "invalid script url"))
      else if not (is_word_of (codes "._/-") c.branch)
      then err (invalid_config (codes "invalid branch"))
      else if not (is_word_of (codes "_.@-") c.unit_name)
      then err (invalid_config (codes "invalid unit name"))
      else if is_negative c.cooldown
      then err (invalid_config (codes "invalid cooldown"))
      else ok tt

  -- `parse_time` is time.Parse with the layout of systemd.
  unfoldable pub cooldown_wait : (Text → Option Time) → ℕ → Status → Time → ℕ
  unfolding equal_fold
  cooldown_wait parse_time cooldown st now =
      let ts = trim_space st.state_change_timestamp in
      if not st.exists || st.running
      then 0
      else if text_eq ts [] || equal_fold ts (codes "n/a")
      then 0
      else wait_since cooldown now (parse_time ts)

  unfoldable pub parse_int : Text → ℤ
  unfolding atoi
  parse_int v = value_of (atoi (trim_space v))

unfoldable pub unit_service_name : Config → Text
unit_service_name c = c.unit_name ++ codes ".service"

-- shellQuote
unfoldable pub shell_quote : Text → Text
unfolding replace_all
shell_quote v = codes "'" ++ replace_all v (codes "'") (codes "'\"'\"'") ++ codes "'"

unfoldable pub looks_like_commit : Text → Bool
looks_like_commit v =
    not (ltb (length v) 7) && all (λ c. is_digit c || between b'a' b'f' c || between b'A' b'F' c) v

abbrev joined : Text → List Text → Text
joined sep [] = []
joined sep (p ∷ []) = p
joined sep (p ∷ q ∷ ps) = p ++ sep ++ joined sep (q ∷ ps)

abbrev integer_text : ℤ → Text
integer_text (pos n) = decimal n
integer_text (negsuc n) = codes "-" ++ decimal (n + 1)

unfoldable pub summarize_status : Status → Text
unfolding decimal
summarize_status st =
    let base =
      codes "unit="
      ++ st.unit
      ++ codes " active="
      ++ st.active_state
      ++ codes " sub="
      ++ st.sub_state
      ++ codes " result="
      ++ st.result
      ++ codes " exec_status="
      ++ integer_text st.exec_main_status in
    if length st.logs == 0
    then base
    else base ++ codes " logs_tail=" ++ joined (codes " || ") (drop (length st.logs - 5) st.logs)

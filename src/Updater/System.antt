-- ===== src/Updater/System.antt =====
-- What the updater of internal/updater/service.go does with the system: `Status`, `Start`, `Check`
-- and the commands under them. The commands are a parameter: what a command prints, the error it
-- ends with, if any, also that of the time limit, and the system behind it.
use nusantara_panel.Base.{
  ◌||◌, ◌&&◌, negsuc, ltb, pos, ℕ, split, Bool, ℤ, replace_all, not, cut, List, ◌∷◌, ◌++◌, ◌==◌, [],
  none, some, false, if◌then◌else◌, Text, codes, Option, Result, ok, err, text_eq, Unicode,
  trim_space,
}
use nusantara_panel.Base.Table.{Table, lookup, insert}
use nusantara_panel.Store.{Time, decimal}
use nusantara_panel.Updater.{
  disabled, validate_config, parse_int, unit_service_name, Config, Service, Error, failed, Status,
}

pub record Ran : Type 0 where
  pub output : Text
  pub failure : Option Text

-- The system of states `F`: running a command, and the two parsers of the standard library.
pub record Host (F : Type 0) : Type 0 where
  pub run : List Text → F → Ran × F
  pub is_uri : Text → Bool
  pub parse_time : Text → Option Time

abbrev value : Text → Table Text → Text
value key props = elim (lookup key props) [ none ↦ [] | some v ↦ v ]

module _ ⦃u : Unicode⦄ where
  abbrev add_property : Option (Text × Text) → Table Text → Table Text
  add_property none props = props
  add_property (some (key, v)) props = insert key (trim_space v) props

  abbrev read_lines : List Text → Table Text → Table Text
  read_lines [] props = props
  read_lines (line ∷ lines) props =
      read_lines lines (add_property (cut (trim_space line) b'=') props)

  -- The properties that `systemctl show` prints: the last line of a key counts.
  unfoldable pub parse_properties : Text → Table Text
  unfolding cut split insert
  parse_properties output = read_lines (split output 10) []

  abbrev filled : List Text → List Text
  filled [] = []
  filled (line ∷ lines) =
      if text_eq (trim_space line) [] then filled lines else trim_space line ∷ filled lines

  unfoldable pub log_lines : Text → List Text
  unfolding replace_all split
  log_lines output = filled (split (replace_all output (codes "\r\n") (codes "\n")) 10)

-- Between 20 and 500
unfoldable pub log_count : ℤ → ℕ
log_count (pos n) = if ltb n 20 then 20 else if ltb 500 n then 500 else n
log_count (negsuc n) = 20

abbrev pub show_command : Config → List Text
show_command c =
    codes "systemctl"
    ∷ codes "show"
    ∷ unit_service_name c
    ∷ codes "--property=LoadState"
    ∷ codes "--property=ActiveState"
    ∷ codes "--property=SubState"
    ∷ codes "--property=Result"
    ∷ codes "--property=ExecMainStatus"
    ∷ codes "--property=StateChangeTimestamp"
    ∷ codes "--no-pager"
    ∷ []

abbrev pub journal_command : Config → List Text
journal_command c =
    codes "journalctl"
    ∷ codes "-u"
    ∷ unit_service_name c
    ∷ codes "-n"
    ∷ decimal (log_count c.log_lines)
    ∷ codes "--no-pager"
    ∷ codes "--output=short-iso"
    ∷ []

abbrev is_zero : ℤ → Bool
is_zero (pos n) = n == 0
is_zero (negsuc n) = false

module _ ⦃u : Unicode⦄ where
  -- Some properties as the status of the unit.
  abbrev pub status_of : Config → Time → List Text → Table Text → Status
  status_of c at lines props =
      let active = value (codes "ActiveState") props in
      let sub = value (codes "SubState") props in
      let outcome = value (codes "Result") props in
      let code = parse_int (value (codes "ExecMainStatus") props) in
      let running =
        text_eq active (codes "activating")
        || text_eq sub (codes "running")
        || text_eq sub (codes "start") in
      let exists = not (text_eq (value (codes "LoadState") props) (codes "not-found")) in
      record {
        unit = unit_service_name c;
        exists = exists;
        running = running;
        active_state = active;
        sub_state = sub;
        result = outcome;
        exec_main_status = code;
        state_change_timestamp = value (codes "StateChangeTimestamp") props;
        success = exists && not running && text_eq outcome (codes "success") && is_zero code;
        failed = exists && not running && (text_eq outcome (codes "failed") || not (is_zero code));
        last_checked_at = at;
        logs = lines;
      }

  abbrev logs_or_none : Ran → List Text
  logs_or_none ran = elim ran.failure [ none ↦ log_lines ran.output | some cause ↦ [] ]

  module _ {F : Type 0} (host : Host F) where
    abbrev with_logs : Config → Time → Table Text → F → Result Error Status × F
    with_logs c at props f =
        let (ran, g) = host.run (journal_command c) f in
        if (status_of c at [] props).exists
        then (ok (status_of c at (logs_or_none ran) props), g)
        else (ok (status_of c at [] props), f)

    abbrev shown : Config → Time → Ran × F → Result Error Status × F
    shown c at (ran, f) = elim ran.failure [
      | none ↦ with_logs c at (parse_properties ran.output) f
      | some cause ↦ (
        err (
            failed
              (codes "read updater unit status: " ++ cause ++ codes ": " ++ trim_space ran.output)),
        f,
      )
    ]

    -- `s.Status`, at a reading of the clock
    unfoldable pub status : Service → Time → F → Result Error Status × F
    unfolding validate_config unit_service_name parse_properties log_lines log_count parse_int
    status s at f =
        if not s.enabled then (err disabled, f) else elim (validate_config host.is_uri s.cfg) [
          | err e ↦ (err e, f)
          | ok _ ↦ shown s.cfg at (host.run (show_command s.cfg) f)
        ]

-- ===== src/Platform.antt =====
-- internal/platform/oscheck/oscheck.go: which system the panel runs on. The name of the system that
-- the program is built for and the text of /etc/os-release, if it can be read, are parameters.
mod Tests
use nusantara_panel.Base.{
  ◌||◌, to_lower, trim_space, leb, not, pos, atoi, number, split, cut, Parsed, ℕ, Unicode, ◌==◌,
  reverse, ◌≡◌, Text, codes, [], ◌∷◌, List, Bool, true, false, Option, none, some, text_eq,
  has_prefix, if◌then◌else◌,
}
use nusantara_panel.Base.Table.{Table, insert, lookup}

abbrev pub min_ubuntu_major : ℕ
min_ubuntu_major = 22

-- `Result` of the package
pub record Compatibility : Type 0 where
  pub goos : Text
  pub id : Text
  pub version_id : Text
  pub supported : Bool

unfoldable drop_quotes : Text → Text
drop_quotes [] = []
drop_quotes (c ∷ s) = let rest = drop_quotes s in if c == b'"' then rest else c ∷ s

-- strings.Trim(s, "\"")
unfoldable pub trim_quotes : Text → Text
unfolding drop_quotes
trim_quotes s = reverse (drop_quotes (reverse (drop_quotes s)))

abbrev is_at_least : Parsed → Bool
is_at_least (number (pos n)) = leb min_ubuntu_major n
is_at_least _ = false

-- The text before the first dot
abbrev pub major_of : Text → Text
major_of version = elim (cut version b'.') [ none ↦ version | some (major, rest) ↦ major ]

unfoldable pub is_supported_ubuntu : Text → Text → Bool
unfolding text_eq cut atoi
is_supported_ubuntu id version_id =
    if not (text_eq id (codes "ubuntu"))
    then false
    else if text_eq (major_of version_id) []
    then false
    else is_at_least (atoi (major_of version_id))

abbrev value : Text → Table Text → Text
value key values = elim (lookup key values) [ none ↦ [] | some v ↦ v ]

module _ ⦃u : Unicode⦄ where
  abbrev add_pair : Option (Text × Text) → Table Text → Table Text
  add_pair none values = values
  add_pair (some (key, v)) values =
      insert (to_lower (trim_space key)) (to_lower (trim_quotes (trim_space v))) values

  abbrev pub add_line : Text → Table Text → Table Text
  add_line given values =
      let line = trim_space given in
      if text_eq line [] || has_prefix line (codes "#")
      then values
      else add_pair (cut line b'=') values

  abbrev pub read_lines : List Text → Table Text → Table Text
  read_lines [] values = values
  read_lines (line ∷ lines) values = read_lines lines (add_line line values)

  unfoldable pub parse_os_release : Text → Table Text
  unfolding text_eq has_prefix cut split insert trim_quotes
  parse_os_release raw = read_lines (split raw 10) []

  unfoldable pub detect : Text → Option Text → Compatibility
  unfolding parse_os_release is_supported_ubuntu lookup
  detect goos release =
      let res : Compatibility = record {
        goos = goos;
        id = [];
        version_id = [];
        supported = false;
      } in
      if not (text_eq goos (codes "linux")) then res else elim release [
        | none ↦ res
        | some raw ↦
            let values = parse_os_release raw in
            let id = value (codes "id") values in
            let version_id = value (codes "version_id") values in
            record res {
              id = id;
              version_id = version_id;
              supported = is_supported_ubuntu id version_id;
            }
      ]

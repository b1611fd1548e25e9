-- ===== src/Sites/Paths.antt =====
-- The paths of a site: internal/service/sites/service.go from `isValidRootPath` to `isWithinRoot`,
-- with path.Clean and filepath.Join of Go on a system whose separator is the slash.
use nusantara_panel.Base.{
  ◌==◌, ◌||◌, not, Text, codes, [], ◌∷◌, ◌++◌, List, Bool, true, false, any, text_eq, has_prefix,
  contains, split, join, replace_all, trim_prefix, if◌then◌else◌, Unicode, trim_space, Result, ok,
  err, reverse,
}
use nusantara_panel.Sites.{Error, invalid_path}

abbrev pub is_dot : Text → Bool
is_dot s = text_eq s [] || text_eq s (codes ".")

-- What `..` does to the segments so far, the last one first.
abbrev pub go_up : Bool → List Text → List Text
go_up rooted [] = if rooted then [] else codes ".." ∷ []
go_up rooted (top ∷ segments) =
    if text_eq top (codes "..") then codes ".." ∷ top ∷ segments else segments

unfoldable pub clean_segments : Bool → List Text → List Text → List Text
unfolding text_eq
clean_segments rooted done [] = reverse done
clean_segments rooted done (s ∷ rest) =
    clean_segments rooted
      (if is_dot s then done else if text_eq s (codes "..") then go_up rooted done else s ∷ done)
      rest

abbrev rebuilt : Bool → List Text → Text
rebuilt true segments = b'/' ∷ join segments b'/'
rebuilt false [] = codes "."
rebuilt false segments = join segments b'/'

-- path.Clean
unfoldable pub clean : Text → Text
unfolding clean_segments split join
clean p =
    let rooted = has_prefix p (codes "/") in
    rebuilt rooted (clean_segments rooted [] (split p b'/'))

drop_name : Text → Text
drop_name [] = []
drop_name (c ∷ s) = let rest = drop_name s in if c == b'/' then c ∷ s else rest

-- filepath.Dir
unfoldable pub dir : Text → Text
unfolding clean drop_name
dir p = clean (reverse (drop_name (reverse p)))

-- filepath.Join of two elements
unfoldable pub join_path : Text → Text → Text
join_path [] [] = []
join_path [] b = clean b
join_path a [] = clean a
join_path a b = clean (a ++ (b'/' ∷ b))

unfoldable pub is_valid_root_path : Text → Bool
unfolding clean
is_valid_root_path root_path =
    if text_eq root_path [] || not (has_prefix root_path (codes "/"))
    then false
    else if text_eq (clean root_path) (codes "/")
    then false
    else not (contains (clean root_path) (codes ".."))

unfoldable pub is_within_root : Text → Text → Bool
unfolding clean
is_within_root root_path target_path =
    if text_eq (clean target_path) (clean root_path)
    then true
    else has_prefix (clean target_path) (clean root_path ++ codes "/")

abbrev nothing : Bool → Result Error Text
nothing allow_empty = if allow_empty then ok [] else err invalid_path

module _ ⦃u : Unicode⦄ where
  unfoldable pub normalize_relative_path : Text → Bool → Result Error Text
  unfolding clean trim_prefix
  normalize_relative_path raw allow_empty =
      let trimmed = trim_space (replace_all raw (codes "\\") (codes "/")) in
      let cleaned = trim_prefix (clean (b'/' ∷ trimmed)) (codes "/") in
      if text_eq trimmed []
      then nothing allow_empty
      else if has_prefix trimmed (codes "/")
      then err invalid_path
      else if any (λ s. text_eq s (codes "..")) (split trimmed b'/')
      then err invalid_path
      else if text_eq cleaned (codes ".") || text_eq cleaned []
      then nothing allow_empty
      else if text_eq cleaned (codes "..")
          || has_prefix cleaned (codes "../")
          || contains cleaned (codes "/../")
      then err invalid_path
      else ok cleaned

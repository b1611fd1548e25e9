-- ===== src/Sites.antt =====
-- internal/service/sites/service.go: the errors of the service and the checks of a domain and of a
-- runtime. Paths has the checks of paths, Lifecycle the making and the removal of a site, Files what
-- is done to the files of a site, Listing and Archive the entries of a directory and the archive.
pub mod Paths
pub mod Lifecycle
pub mod Files
pub mod Listing
pub mod Archive
pub mod Created
pub mod Contained
pub mod Tests
use nusantara_panel.Base.{
  ℕ, ◌&&◌, ◌||◌, not, Text, codes, [], ◌∷◌, List, Bool, true, false, all, any, length, leb, ltb,
  is_upper, is_lower, is_digit, ◌==◌, text_eq, has_prefix, has_suffix, contains, split, trim_suffix,
  if◌then◌else◌, Unicode, to_lower, trim_space,
}
use nusantara_panel.Store
use nusantara_panel.Jobs

pub data Error : Type 0 where
  invalid_domain invalid_root invalid_runtime invalid_file content_too_long : Error
  invalid_path invalid_base64 file_too_large not_directory dir_not_empty : Error
  id_fails : Text → Error
  os_fails : Text → Text → Error
  store_error : Store.Error → Error
  jobs_error : Jobs.Error → Error

-- The keys of `allowedRuntime` and of `editableFiles`.
abbrev pub allowed_runtime : List Text
allowed_runtime = codes "php" ∷ codes "node" ∷ codes "python" ∷ codes "static" ∷ []

abbrev pub editable_files : List Text
editable_files = codes "index.html" ∷ codes "index.htm" ∷ codes "index.php" ∷ []

abbrev pub is_one_of : Text → List Text → Bool
is_one_of s ts = any (text_eq s) ts

module _ ⦃u : Unicode⦄ where
  unfoldable pub normalize_domain : Text → Text
  unfolding trim_suffix
  normalize_domain s = to_lower (trim_space (trim_suffix s (codes ".")))

-- ^[a-zA-Z0-9.-]+$
abbrev pub is_domain_byte : ℕ → Bool
is_domain_byte c = is_lower c || is_upper c || is_digit c || c == b'.' || c == b'-'

abbrev pub is_label : Text → Bool
is_label p = not (text_eq p [] || has_prefix p (codes "-") || has_suffix p (codes "-"))

unfoldable pub is_valid_domain : Text → Bool
is_valid_domain domain =
    if ltb (length domain) 3 || ltb 253 (length domain)
    then false
    else if has_prefix domain (codes ".")
        || has_suffix domain (codes ".")
        || contains domain (codes "..")
    then false
    else if not (leb 1 (length domain) && all is_domain_byte domain)
    then false
    else if ltb (length (split domain b'.')) 2
    then false
    else all is_label (split domain b'.')

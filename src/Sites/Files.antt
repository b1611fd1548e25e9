-- ===== src/Sites/Files.antt =====
-- What is done to the files of a site: internal/service/sites/service.go from `GetSiteContent` to
-- `DeleteSiteDirectory`. The package os is a parameter that acts
-- on a file system of any kind.
use nusantara_panel.Base.{
  Text, codes, [], ◌∷◌, List, Bool, true, false, ℕ, length, ltb, text_eq, Option, none, some,
  Result, ok, err, if◌then◌else◌, not, Unicode, to_lower, trim_space, ◌*◌,
}
use nusantara_panel.Store.{Site, not_found}
use nusantara_panel.Store.FileDb.Snapshot.{Repository}
use nusantara_panel.Store.FileDb.Methods.{get_site_by_id}
use nusantara_panel.Sites.{
  Error, invalid_file, content_too_long, invalid_path, invalid_base64, file_too_large,
  not_directory, dir_not_empty, os_fails, store_error, is_one_of, editable_files,
}
use nusantara_panel.Sites.Paths.{dir, join_path, is_within_root, normalize_relative_path}

-- The error of a call of the system, as errors.Is tells it.
pub data OsError : Type 0 where
  not_exist permission other : Text → OsError

-- The package os on file systems `F`: what a path is (a directory, or not), reading, and the calls
-- that change the file system, whose parts that were done stay done when they fail.
pub record Os (F : Type 0) : Type 0 where
  pub stat : Text → F → Result OsError Bool
  pub read_file : Text → F → Result OsError Text
  pub write_file : Text → Text → F → Result OsError (Unit {0}) × F
  pub mkdir_all : Text → F → Result OsError (Unit {0}) × F
  pub remove : Text → F → Result OsError (Unit {0}) × F
  pub remove_all : Text → F → Result OsError (Unit {0}) × F

abbrev pub max_site_content_bytes : ℕ
max_site_content_bytes = 1024 * 1024

abbrev pub max_site_upload_bytes : ℕ
max_site_upload_bytes = 8 * 1024 * 1024

abbrev pub os_text : OsError → Text
os_text (not_exist t) = t
os_text (permission t) = t
os_text (other t) = t

abbrev unless_missing : Text → OsError → Error
unless_missing context (not_exist t) = store_error not_found
unless_missing context (permission t) = os_fails context t
unless_missing context (other t) = os_fails context t

abbrev why_not_removed : OsError → Error
why_not_removed (not_exist t) = store_error not_found
why_not_removed (permission t) = os_fails (codes "delete directory") t
why_not_removed (other t) = dir_not_empty

-- A call of the system, and what follows when it succeeds.
abbrev pub then_ {ℓ} :
    {F : Type 0} {A : Type ℓ}
    → (OsError → Error)
    → (F → Result Error A × F)
    → Result OsError (Unit {0}) × F
    → Result Error A × F
then_ wrong next (err e, f) = (err (wrong e), f)
then_ wrong next (ok _, f) = next f

module _ ⦃u : Unicode⦄ where
  unfoldable pub default_editable_file : Text → Text
  default_editable_file runtime =
      if text_eq (to_lower (trim_space runtime)) (codes "php")
      then codes "index.php"
      else codes "index.html"

  unfoldable pub file_candidates_by_runtime : Text → List Text
  file_candidates_by_runtime runtime =
      if text_eq (to_lower (trim_space runtime)) (codes "php")
      then codes "index.php" ∷ codes "index.html" ∷ codes "index.htm" ∷ []
      else codes "index.html" ∷ codes "index.htm" ∷ codes "index.php" ∷ []

  -- What the operations on a path of a site share: the site, the path within it, and the check that
  -- the two together stay under the site's root.
  unfoldable pub located : Text → Text → Repository → Result Error (Site × Text × Text)
  located id rel_path r = elim (get_site_by_id id r) [
    | err e ↦ err (store_error e)
    | ok site ↦ elim (normalize_relative_path rel_path false) [
      | err e ↦ err e
      | ok clean_path ↦
          let full_path = join_path site.root_path clean_path in
          if is_within_root site.root_path full_path
          then ok (site, clean_path, full_path)
          else err invalid_path
    ]
  ]

module _ ⦃u : Unicode⦄ {F : Type 0} (os : Os F) where
  abbrev exists : Result OsError Bool → Bool
  exists (ok is_dir) = true
  exists (err e) = false

  pub first_existing : Text → F → List Text → Text → Text
  first_existing root f [] default = default
  first_existing root f (name ∷ names) default =
      let rest = first_existing root f names default in
      if exists (os.stat (join_path root name) f) then name else rest

  unfoldable pub resolve_editable_file : F → Site → Text → Bool → Result Error Text
  unfolding first_existing default_editable_file file_candidates_by_runtime
  resolve_editable_file f site file prefer_existing =
      let name = trim_space (to_lower file) in
      let default = default_editable_file site.runtime in
      if not (text_eq name [])
      then (if is_one_of name editable_files then ok name else err invalid_file)
      else if prefer_existing
      then ok (first_existing site.root_path f (file_candidates_by_runtime site.runtime) default)
      else ok default

  abbrev read_content : F → Site → Text → Result Error (Site × Text × Text)
  read_content f site name = elim (os.read_file (join_path site.root_path name) f) [
    | err e ↦ err (unless_missing (codes "read file") e)
    | ok content ↦ ok (site, name, content)
  ]

  unfoldable pub get_site_content : Text → Text → Repository → F → Result Error (Site × Text × Text)
  get_site_content id file r f = elim (get_site_by_id id r) [
    | err e ↦ err (store_error e)
    | ok site ↦ elim (resolve_editable_file f site file true) [
      | err e ↦ err e
      | ok name ↦ read_content f site name
    ]
  ]

  abbrev pub write_content : Site → Text → Text → F → Result Error (Site × Text × ℕ) × F
  write_content site name content f =
      then_ (λ e. os_fails (codes "ensure site root") (os_text e))
        (λ f₁.
          then_ (λ e. os_fails (codes "write file") (os_text e))
            (λ f₂. (ok (site, name, length content), f₂))
            (os.write_file (join_path site.root_path name) content f₁))
        (os.mkdir_all site.root_path f)

  unfoldable pub update_site_content :
      Text → Text → Text → Repository → F → Result Error (Site × Text × ℕ) × F
  update_site_content id file content r f = elim (get_site_by_id id r) [
    | err e ↦ (err (store_error e), f)
    | ok site ↦
        if ltb max_site_content_bytes (length content)
        then (err content_too_long, f)
        else elim (resolve_editable_file f site file false) [
          | err e ↦ (err e, f)
          | ok name ↦ write_content site name content f
        ]
  ]

  abbrev pub put_file : Site → Text → Text → Text → F → Result Error (Site × Text × ℕ) × F
  put_file site clean_path full_path bytes f =
      then_ (λ e. os_fails (codes "ensure parent dir") (os_text e))
        (λ f₁.
          then_ (λ e. os_fails (codes "write file") (os_text e))
            (λ f₂. (ok (site, clean_path, length bytes), f₂)) (os.write_file full_path bytes f₁))
        (os.mkdir_all (dir full_path) f)

  abbrev is_directory : Result OsError Bool → Bool
  is_directory (ok is_dir) = is_dir
  is_directory (err e) = false

  -- `decode` is base64.StdEncoding.DecodeString.
  unfoldable pub upload_site_file :
      (Text → Option Text)
      → Text
      → Text
      → Text
      → Repository
      → F
      → Result Error (Site × Text × ℕ) × F
  upload_site_file decode id rel_path content r f = elim (get_site_by_id id r) [
    | err e ↦ (err (store_error e), f)
    | ok site ↦ elim (normalize_relative_path rel_path false) [
      | err e ↦ (err e, f)
      | ok clean_path ↦ elim (decode (trim_space content)) [
        | none ↦ (err invalid_base64, f)
        | some bytes ↦
            let full_path = join_path site.root_path clean_path in
            if ltb max_site_upload_bytes (length bytes)
            then (err file_too_large, f)
            else if not (is_within_root site.root_path full_path)
            then (err invalid_path, f)
            else if is_directory (os.stat full_path f)
            then (err invalid_path, f)
            else put_file site clean_path full_path bytes f
      ]
    ]
  ]

  abbrev remove_file : Site → Text → Text → F → Result OsError Bool → Result Error (Site × Text) × F
  remove_file site clean_path full_path f (err e) = (err (unless_missing (codes "stat file") e), f)
  remove_file site clean_path full_path f (ok true) = (err invalid_path, f)
  remove_file site clean_path full_path f (ok false) =
      then_ (λ e. os_fails (codes "delete file") (os_text e)) (λ f₁. (ok (site, clean_path), f₁))
        (os.remove full_path f)

  unfoldable pub delete_site_file : Text → Text → Repository → F → Result Error (Site × Text) × F
  unfolding located
  delete_site_file id rel_path r f = elim (located id rel_path r) [
    | err e ↦ (err e, f)
    | ok (site, clean_path, full_path) ↦
        remove_file site clean_path full_path f (os.stat full_path f)
  ]

  abbrev file_content :
      Site → Text → Text → F → Result OsError Bool → Result Error (Site × Text × Text)
  file_content site clean_path full_path f (err e) = err (unless_missing (codes "stat file") e)
  file_content site clean_path full_path f (ok true) = err invalid_path
  file_content site clean_path full_path f (ok false) = elim (os.read_file full_path f) [
    | err e ↦ err (os_fails (codes "read file") (os_text e))
    | ok content ↦ ok (site, clean_path, content)
  ]

  unfoldable pub download_site_file :
      Text → Text → Repository → F → Result Error (Site × Text × Text)
  unfolding located
  download_site_file id rel_path r f = elim (located id rel_path r) [
    | err e ↦ err e
    | ok (site, clean_path, full_path) ↦
        file_content site clean_path full_path f (os.stat full_path f)
  ]

  unfoldable pub create_site_directory :
      Text → Text → Repository → F → Result Error (Site × Text) × F
  unfolding located
  create_site_directory id rel_path r f = elim (located id rel_path r) [
    | err e ↦ (err e, f)
    | ok (site, clean_path, full_path) ↦
        then_ (λ e. os_fails (codes "create directory") (os_text e))
          (λ f₁. (ok (site, clean_path), f₁)) (os.mkdir_all full_path f)
  ]

  abbrev remove_directory :
      Bool → Site → Text → Text → F → Result OsError Bool → Result Error (Site × Text) × F
  remove_directory recursive site clean_path full_path f (err e) =
      (err (unless_missing (codes "stat directory") e), f)
  remove_directory recursive site clean_path full_path f (ok false) = (err not_directory, f)
  remove_directory true site clean_path full_path f (ok true) =
      then_ (λ e. os_fails (codes "delete directory") (os_text e))
        (λ f₁. (ok (site, clean_path), f₁)) (os.remove_all full_path f)
  remove_directory false site clean_path full_path f (ok true) =
      then_ why_not_removed (λ f₁. (ok (site, clean_path), f₁)) (os.remove full_path f)

  unfoldable pub delete_site_directory :
      Text → Text → Bool → Repository → F → Result Error (Site × Text) × F
  unfolding located
  delete_site_directory id rel_path recursive r f = elim (located id rel_path r) [
    | err e ↦ (err e, f)
    | ok (site, clean_path, full_path) ↦
        remove_directory recursive site clean_path full_path f (os.stat full_path f)
  ]

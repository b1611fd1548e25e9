-- ===== src/Sites/Archive.antt =====
-- `BackupSiteContent` of internal/service/sites/service.go: the archive of the files of a site. The
-- calls of the system, filepath.Walk, filepath.Rel and the writer of archives are parameters.
pub mod Names
pub mod Archived
use nusantara_panel.Base.{
  Text, codes, [], ◌∷◌, ◌++◌, List, Bool, true, false, Option, none, some, Result, ok, err, text_eq,
  replace_all, not, if◌then◌else◌, ◌||◌, ℕ, Unicode, to_lower, trim_space,
}
use nusantara_panel.Store
use nusantara_panel.Store.{Site, Time, not_found}
use nusantara_panel.Store.FileDb.Snapshot.{Repository}
use nusantara_panel.Store.FileDb.Methods.{get_site_by_id}
use nusantara_panel.Sites.Paths.{join_path}
use nusantara_panel.Sites.Files.{OsError, os_text, not_exist, permission, other}

pub data ArchiveError : Type 0 where
  store_fails : Store.Error → ArchiveError
  not_a_directory : ArchiveError
  archive_fails : Text → ArchiveError

pub record SiteContentBackupResult : Type 0 where
  pub file : Text
  pub created_at : Time
  pub size : ℕ

-- What is found at a path on a walk.
pub data Kind : Type 0 where
  symlink folder regular : Kind

pub record Visit : Type 0 where
  pub current : Text
  pub found : Result Text Kind

-- The calls on file systems `F` with writers of archives `Z`: the visits of filepath.Walk, in its
-- order; what a path is (a directory, or not) and the size of a file; the opening of an archive, an
-- entry for a directory, the entry of a file with its content, and the closing.
pub record Archiver (F Z : Type 0) : Type 0 where
  pub stat : Text → F → Result OsError Bool
  pub size : Text → F → Result OsError ℕ
  pub mkdir_all : Text → F → Result OsError (Unit {0}) × F
  pub remove : Text → F → Result OsError (Unit {0}) × F
  pub rename : Text → Text → F → Result OsError (Unit {0}) × F
  pub walk : Text → F → List Visit
  pub rel : Text → Text → Result Text Text
  pub open_archive : Text → F → Result OsError Z × F
  pub add_folder : Text → Z → F → Result Text Z × F
  pub add_file : Text → Text → Z → F → Result Text Z × F
  pub close_archive : Z → F → Result Text (Unit {0}) × F

module _ ⦃u : Unicode⦄ where
  unfoldable pub sanitize_domain_for_file : Text → Text
  unfolding replace_all text_eq
  sanitize_domain_for_file domain =
      let lower = to_lower (trim_space domain) in
      let dotted = replace_all lower (codes "..") (codes ".") in
      let name =
        replace_all (replace_all dotted (codes "/") (codes "-")) (codes "\\") (codes "-") in
      if text_eq name [] then codes "site" else name

module _ {F Z : Type 0} (os : Archiver F Z) where
  -- What the walk does at one path.
  abbrev pub added : Text → Text → Kind → Z → F → Result Text Z × F
  added current name symlink z f = (ok z, f)
  added current name folder z f = os.add_folder (name ++ codes "/") z f
  added current name regular z f = os.add_file name current z f

  unfoldable pub visit_path : Text → Visit → Z → F → Result Text Z × F
  unfolding text_eq
  visit_path root visit z f = elim visit.found [
    | err e ↦ (err e, f)
    | ok kind ↦ if text_eq visit.current root then (ok z, f) else elim (os.rel root visit.current) [
      | err e ↦ (err e, f)
      | ok name ↦
          if text_eq name (codes ".") || text_eq name []
          then (ok z, f)
          else added visit.current name kind z f
    ]
  ]

  abbrev pub go_on : (Z → F → Result Text Z × F) → Result Text Z × F → Result Text Z × F
  go_on next (err e, f) = (err e, f)
  go_on next (ok z, f) = next z f

  unfoldable pub visit_all : Text → List Visit → Z → F → Result Text Z × F
  unfolding visit_path
  visit_all root [] z f = (ok z, f)
  visit_all root (visit ∷ visits) z f =
      go_on (λ z₁ f₁. visit_all root visits z₁ f₁) (visit_path root visit z f)

  abbrev pub zip_closed : Result Text (Unit {0}) × F → Result ArchiveError (Unit {0}) × F
  zip_closed (err e, f) = (err (archive_fails (codes "close zip writer: " ++ e)), f)
  zip_closed (ok _, f) = (ok tt, f)

  abbrev pub zip_walked : Result Text Z × F → Result ArchiveError (Unit {0}) × F
  zip_walked (err e, f) = (err (archive_fails (codes "zip site content: " ++ e)), f)
  zip_walked (ok z, f) = zip_closed (os.close_archive z f)

  abbrev pub zip_opened : Text → Result OsError Z × F → Result ArchiveError (Unit {0}) × F
  zip_opened root (err e, f) = (err (archive_fails (codes "create zip file: " ++ os_text e)), f)
  zip_opened root (ok z, f) = zip_walked (visit_all root (os.walk root f) z f)

  abbrev root_error : OsError → ArchiveError
  root_error (not_exist t) = store_fails not_found
  root_error (permission t) = archive_fails (codes "stat site root: " ++ t)
  root_error (other t) = archive_fails (codes "stat site root: " ++ t)

  unfoldable pub zip_directory : Text → Text → F → Result ArchiveError (Unit {0}) × F
  unfolding visit_all
  zip_directory root_path target_zip f = elim (os.stat root_path f) [
    | err e ↦ (err (root_error e), f)
    | ok is_dir ↦
        if not is_dir
        then (err not_a_directory, f)
        else zip_opened root_path (os.open_archive target_zip f)
  ]

  abbrev pub sized :
      Site → Text → Time → F → Result ArchiveError (Site × SiteContentBackupResult) × F
  sized site target now f = elim (os.size target f) [
    | err e ↦ (err (archive_fails (codes "stat backup file: " ++ os_text e)), f)
    | ok n ↦ (ok (site, record { file = target; created_at = now; size = n }), f)
  ]

  abbrev pub archive_moved :
      Site
      → Text
      → Time
      → Result OsError (Unit {0}) × F
      → Result ArchiveError (Site × SiteContentBackupResult) × F
  archive_moved site target now (err e, f) = (
    err (archive_fails (codes "move backup file: " ++ os_text e)),
    (os.remove (target ++ codes ".tmp") f).1,
  )
  archive_moved site target now (ok _, f) = sized site target now f

  abbrev pub archived :
      Site
      → Text
      → Time
      → Result ArchiveError (Unit {0}) × F
      → Result ArchiveError (Site × SiteContentBackupResult) × F
  archived site target now (err e, f) = (err e, (os.remove (target ++ codes ".tmp") f).1)
  archived site target now (ok _, f) =
      archive_moved site target now (os.rename (target ++ codes ".tmp") target f)

  abbrev pub archive_made :
      Site
      → Text
      → Time
      → Result OsError (Unit {0}) × F
      → Result ArchiveError (Site × SiteContentBackupResult) × F
  archive_made site target now (err e, f) =
      (err (archive_fails (codes "create backup dir: " ++ os_text e)), f)
  archive_made site target now (ok _, f) =
      archived site target now (zip_directory site.root_path (target ++ codes ".tmp") f)

  module _ ⦃u : Unicode⦄ where
    abbrev pub archive_dir : Text → Site → Text
    archive_dir backup_dir site =
        join_path (join_path backup_dir (codes "sites")) (sanitize_domain_for_file site.domain)

    -- `stamp` is the time as the name of a file has it.
    abbrev pub archive_name : Text → Site → Text
    archive_name stamp site =
        codes "site_content_"
        ++ sanitize_domain_for_file site.domain
        ++ codes "_"
        ++ stamp
        ++ codes ".zip"

    unfoldable pub backup_site_content :
        Bool
        → Text
        → Time
        → Text
        → Text
        → Repository
        → F
        → Result ArchiveError (Site × SiteContentBackupResult) × F
    unfolding sanitize_domain_for_file zip_directory join_path
    backup_site_content apply backup_dir now stamp id r f = elim (get_site_by_id id r) [
      | err e ↦ (err (store_fails e), f)
      | ok site ↦
          let target = join_path (archive_dir backup_dir site) (archive_name stamp site) in
          let planned : SiteContentBackupResult = record {
            file = target;
            created_at = now;
            size = 0;
          } in
          if text_eq (trim_space backup_dir) []
          then (err (archive_fails (codes "backup dir is empty")), f)
          else if not apply
          then (ok (site, planned), f)
          else archive_made site target now (os.mkdir_all (archive_dir backup_dir site) f)
    ]

-- ===== src/Http/Archives.antt =====
-- The handlers of the listing of files and of the archive of a site.
use nusantara_panel.Base.{Text, codes, [], ◌∷◌, some, Result, ok, err, pos, Unicode}
use nusantara_panel.Store.{Site, not_found, error_text}
use nusantara_panel.Sites.Listing.{list_site_files}
use nusantara_panel.Sites.Archive.{
  ArchiveError, store_fails, not_a_directory, archive_fails, SiteContentBackupResult,
  backup_site_content,
}
use nusantara_panel.Http.{
  Request, Response, World, Env, Api, fields, site_files, text, integer, moment, parse_limit,
  write_error, write_json, audited,
}
use nusantara_panel.Http.Replies.{file_error}
use nusantara_panel.Http.Accounts.{Principal}

abbrev archive_message : ArchiveError → Text
archive_message (store_fails e) = error_text e
archive_message not_a_directory = codes "path is not a directory"
archive_message (archive_fails cause) = cause

abbrev archive_error : ArchiveError → Response
archive_error (store_fails not_found) = write_error 404 (codes "site not found")
archive_error e = write_error 500 (archive_message e)

module _ ⦃u : Unicode⦄ {F G : Type 0} (a : Api F G) (env : Env) where
  unfoldable pub handle_list_site_files : Request → World F G → Response × World F G
  unfolding parse_limit
  handle_list_site_files req w =
      elim (list_site_files a.read_dir (req.path_value (codes "siteID")) (req.query (codes "dir"))
        (pos (parse_limit req 200)) w.repo w.files) [
          | err e ↦ (file_error (codes "site or directory not found") e, w)
          | ok (site, rel_dir, items) ↦ (
            write_json 200 (
                site_files
                  ((codes "site_id", text site.id)
                    ∷ (codes "domain", text site.domain)
                    ∷ (codes "root_path", text site.root_path)
                    ∷ (codes "dir", text rel_dir)
                    ∷ [])
                  items),
            w,
          )
        ]

  abbrev pub content_backed_up :
      Principal
      → World F G
      → Result ArchiveError (Site × SiteContentBackupResult) × F
      → Response × World F G
  content_backed_up p w (err e, f) = (archive_error e, record w { files = f })
  content_backed_up p w (ok (site, res), f) = (
    write_json 201 (
        fields (
          (codes "status", text (codes "ok"))
          ∷ (codes "site_id", text site.id)
          ∷ (codes "domain", text site.domain)
          ∷ (codes "file", text res.file)
          ∷ (codes "size", integer res.size)
          ∷ (codes "created_at", moment res.created_at)
          ∷ [])),
    audited a env p.user.id (codes "site.backup.content") (codes "site") site.id
        (some ((codes "file", text res.file) ∷ (codes "size", integer res.size) ∷ []))
        (record w { files = f }),
  )

  unfoldable pub handle_backup_site_content : Principal → Request → World F G → Response × World F G
  unfolding audited
  handle_backup_site_content p req w = content_backed_up p w (
      backup_site_content a.archiver a.sites_apply a.backup_dir env.archive_now
        (env.backup.stamp env.archive_now) (req.path_value (codes "siteID")) w.repo w.files)

-- ===== src/Http/Files.antt =====
-- The handlers of the files of a site.
use nusantara_panel.Base.{
  ℕ, Text, codes, [], ◌∷◌, Bool, true, false, Option, none, some, Result, ok, err, Unicode, length,
  trim_space, text_eq, any, if◌then◌else◌, ◌==◌, reverse,
}
use nusantara_panel.Base.Table.{Table}
use nusantara_panel.Store.{Site}
use nusantara_panel.Sites
use nusantara_panel.Sites.Files.{
  get_site_content, update_site_content, upload_site_file, delete_site_file, download_site_file,
  create_site_directory, delete_site_directory,
}
use nusantara_panel.Http.{
  Request, Response, World, Env, Api, Value, fields, attachment, text, integer, flag, decode_json,
  write_error, write_json, audited,
}
use nusantara_panel.Http.Replies.{
  invalid_body, content_error, update_error, upload_error, file_error, directory_error,
}
use nusantara_panel.Http.Accounts.{Principal}

-- strconv.ParseBool
unfoldable pub parse_bool : Text → Option Bool
parse_bool s =
    if any (text_eq s)
      (codes "1" ∷ codes "t" ∷ codes "T" ∷ codes "true" ∷ codes "TRUE" ∷ codes "True" ∷ [])
    then some true
    else if any (text_eq s)
        (codes "0" ∷ codes "f" ∷ codes "F" ∷ codes "false" ∷ codes "FALSE" ∷ codes "False" ∷ [])
    then some false
    else none

before : ℕ → Text → Text
before sep [] = []
before sep (c ∷ s) = let rest = before sep s in if c == sep then [] else c ∷ rest

-- path.Base and path.Ext of a path that is clean, relative and not empty: what follows its last slash,
-- and of that the part from its last dot on, which is empty without a dot
unfoldable pub base : Text → Text
unfolding before
base p = reverse (before b'/' (reverse p))

unfoldable pub ext : Text → Text
unfolding base before
ext p =
    if any (λ c. c == b'.') (base p) then b'.' ∷ reverse (before b'.' (reverse (base p))) else []

abbrev pub location : Site → Table Value → Table Value
location site more =
    (codes "status", text (codes "ok"))
    ∷ (codes "site_id", text site.id)
    ∷ (codes "domain", text site.domain)
    ∷ more

module _ ⦃u : Unicode⦄ {F G : Type 0} (a : Api F G) (env : Env) where
  unfoldable pub handle_get_site_content : Request → World F G → Response × World F G
  handle_get_site_content req w =
      elim (get_site_content a.os (req.path_value (codes "siteID")) (req.query (codes "file"))
        w.repo w.files) [
          | err e ↦ (content_error (codes "site or file not found") e, w)
          | ok (site, name, content) ↦ (
            write_json 200 (
                fields (
                  (codes "site_id", text site.id)
                  ∷ (codes "domain", text site.domain)
                  ∷ (codes "root_path", text site.root_path)
                  ∷ (codes "file", text name)
                  ∷ (codes "size", integer (length content))
                  ∷ (codes "content", text content)
                  ∷ [])),
            w,
          )
        ]

  -- The end of an operation on the files: the response to an error, or the entry of the audit log,
  -- which has the same particulars as the response.
  abbrev pub file_done :
      {A : Type 0}
      → Principal
      → (Sites.Error → Response)
      → ℕ
      → Text
      → (A → Site)
      → (A → Table Value)
      → (A → Table Value)
      → World F G
      → Result Sites.Error A × F
      → Response × World F G
  file_done p wrong status action site_of metadata more w (err e, f) =
      (wrong e, record w { files = f })
  file_done p wrong status action site_of metadata more w (ok x, f) = (
    write_json status (fields (location (site_of x) (more x))),
    audited a env p.user.id action (codes "site") (site_of x).id (some (metadata x))
        (record w { files = f }),
  )

  unfoldable pub handle_update_site_content : Principal → Request → World F G → Response × World F G
  unfolding audited
  handle_update_site_content p req w = elim (decode_json a.decoders.update_site_content req) [
    | none ↦ (invalid_body, w)
    | some body ↦
        file_done p update_error 200 (codes "site.content.update") (λ x. x.0)
          (λ x. (codes "file", text x.1) ∷ (codes "size", integer x.2) ∷ [])
          (λ x.
            (codes "root_path", text x.0.root_path)
            ∷ (codes "file", text x.1)
            ∷ (codes "size", integer x.2)
            ∷ [])
          w
          (update_site_content a.os (req.path_value (codes "siteID")) body.file body.content w.repo
            w.files)
  ]

  unfoldable pub handle_upload_site_file : Principal → Request → World F G → Response × World F G
  unfolding audited
  handle_upload_site_file p req w = elim (decode_json a.decoders.upload_site_file req) [
    | none ↦ (invalid_body, w)
    | some body ↦
        file_done p upload_error 200 (codes "site.file.upload") (λ x. x.0)
          (λ x. (codes "path", text x.1) ∷ (codes "size", integer x.2) ∷ [])
          (λ x.
            (codes "root_path", text x.0.root_path)
            ∷ (codes "path", text x.1)
            ∷ (codes "size", integer x.2)
            ∷ [])
          w
          (upload_site_file a.os a.base64 (req.path_value (codes "siteID")) body.path
            body.content_base64 w.repo w.files)
  ]

  unfoldable pub handle_delete_site_file : Principal → Request → World F G → Response × World F G
  unfolding audited
  handle_delete_site_file p req w =
      file_done p (file_error (codes "site or file not found")) 200 (codes "site.file.delete")
        (λ x. x.0) (λ x. (codes "path", text x.1) ∷ []) (λ x. (codes "path", text x.1) ∷ []) w
        (delete_site_file a.os (req.path_value (codes "siteID")) (req.query (codes "path")) w.repo
          w.files)

  unfoldable pub handle_create_site_dir : Principal → Request → World F G → Response × World F G
  unfolding audited
  handle_create_site_dir p req w = elim (decode_json a.decoders.site_dir req) [
    | none ↦ (invalid_body, w)
    | some path ↦
        file_done p (file_error (codes "site not found")) 201 (codes "site.dir.create") (λ x. x.0)
          (λ x. (codes "path", text x.1) ∷ []) (λ x. (codes "path", text x.1) ∷ []) w
          (create_site_directory a.os (req.path_value (codes "siteID")) path w.repo w.files)
  ]

  -- The flag `recursive` of a query, which is false where it is empty.
  abbrev pub recursive_flag : Text → Option Bool
  recursive_flag raw = if text_eq raw [] then some false else parse_bool raw

  unfoldable pub handle_delete_site_dir : Principal → Request → World F G → Response × World F G
  unfolding audited parse_bool
  handle_delete_site_dir p req w =
      elim (recursive_flag (trim_space (req.query (codes "recursive")))) [
        | none ↦ (write_error 400 (codes "invalid recursive flag"), w)
        | some recursive ↦
            file_done p directory_error 200 (codes "site.dir.delete") (λ x. x.0)
              (λ x. (codes "path", text x.1) ∷ (codes "recursive", flag recursive) ∷ [])
              (λ x. (codes "path", text x.1) ∷ (codes "recursive", flag recursive) ∷ []) w
              (delete_site_directory a.os (req.path_value (codes "siteID"))
                (req.query (codes "path")) recursive w.repo w.files)
      ]

  abbrev content_type : Text → Text
  content_type given =
      if text_eq (trim_space given) [] then codes "application/octet-stream" else given

  unfoldable pub handle_download_site_file : Request → World F G → Response × World F G
  unfolding base ext
  handle_download_site_file req w =
      elim (download_site_file a.os (req.path_value (codes "siteID")) (req.query (codes "path"))
        w.repo w.files) [
          | err e ↦ (file_error (codes "site or file not found") e, w)
          | ok (site, clean_path, content) ↦ (
            write_json 200 (
                attachment (content_type (a.type_by_extension (ext clean_path))) (base clean_path)
                  content),
            w,
          )
        ]

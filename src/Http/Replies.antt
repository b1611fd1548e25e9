-- ===== src/Http/Replies.antt =====
-- The texts of the errors that the handlers pass on, and how they choose a response for an error.
use nusantara_panel.Base.{Text, codes}
use nusantara_panel.Store.{not_found, conflict, error_text}
use nusantara_panel.Password.{weak_password, bcrypt_fails}
use nusantara_panel.Auth
use nusantara_panel.Sites
use nusantara_panel.Db
use nusantara_panel.Jobs
use nusantara_panel.Http.{Response, write_error}

abbrev pub auth_message : Auth.Error → Text
auth_message Auth.invalid_credentials = codes "invalid credentials"
auth_message Auth.unauthorized = codes "unauthorized"
auth_message Auth.invalid_password = codes "invalid current password"
auth_message Auth.bootstrap_password_empty = codes "bootstrap admin password is empty"
auth_message (Auth.password_error weak_password) = codes "password must be at least 8 characters"
auth_message (Auth.password_error (bcrypt_fails cause)) = cause
auth_message (Auth.random_fails cause) = cause
auth_message (Auth.store_error e) = error_text e

abbrev pub db_message : Db.Error → Text
db_message Db.invalid_database_name = codes "invalid database name"
db_message Db.invalid_username = codes "invalid database username"
db_message Db.invalid_password = codes "invalid database password"
db_message Db.invalid_host = codes "invalid database host"
db_message (Db.command_fails cause) = cause

abbrev pub unauthorized : Response
unauthorized = write_error 401 (codes "unauthorized")

abbrev pub invalid_body : Response
invalid_body = write_error 400 (codes "invalid json body")

abbrev pub internal_error : Response
internal_error = write_error 500 (codes "internal error")

-- The response to an error of the making of a site.
abbrev pub create_site_error : Sites.Error → Response
create_site_error Sites.invalid_domain = write_error 400 (codes "invalid domain")
create_site_error Sites.invalid_root = write_error 400 (codes "invalid root_path")
create_site_error Sites.invalid_runtime = write_error 400 (codes "invalid runtime")
create_site_error (Sites.store_error conflict) = write_error 409 (codes "domain already exists")
create_site_error (Sites.jobs_error (Jobs.store_error conflict)) =
    write_error 409 (codes "domain already exists")
create_site_error _ = internal_error

-- The response to an error of the removal of a site.
abbrev pub delete_site_error : Sites.Error → Response
delete_site_error (Sites.store_error not_found) = write_error 404 (codes "site not found")
delete_site_error (Sites.jobs_error (Jobs.store_error not_found)) =
    write_error 404 (codes "site not found")
delete_site_error _ = internal_error

-- The response to an error of an operation on the files of a site; `missing` is what is said of one
-- that is not there.
abbrev pub file_error : Text → Sites.Error → Response
file_error missing (Sites.store_error not_found) = write_error 404 missing
file_error missing Sites.invalid_path = write_error 400 (codes "invalid path")
file_error missing _ = internal_error

abbrev pub content_error : Text → Sites.Error → Response
content_error missing (Sites.store_error not_found) = write_error 404 missing
content_error missing Sites.invalid_file = write_error 400 (codes "invalid file")
content_error missing _ = internal_error

abbrev pub update_error : Sites.Error → Response
update_error Sites.content_too_long = write_error 400 (codes "content too long")
update_error e = content_error (codes "site not found") e

abbrev pub upload_error : Sites.Error → Response
upload_error Sites.invalid_base64 = write_error 400 (codes "invalid base64 content")
upload_error Sites.file_too_large = write_error 400 (codes "file too large")
upload_error e = file_error (codes "site not found") e

abbrev pub directory_error : Sites.Error → Response
directory_error Sites.not_directory = write_error 400 (codes "path is not a directory")
directory_error Sites.dir_not_empty = write_error 409 (codes "directory is not empty")
directory_error e = file_error (codes "site or directory not found") e

abbrev pub db_error : Db.Error → Response
db_error (Db.command_fails cause) = write_error 500 cause
db_error e = write_error 400 (db_message e)

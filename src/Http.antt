-- ===== src/Http.antt =====
-- internal/httpserver/api.go: what the handlers share. A request is what the handlers read of it, a
-- response its status and its body, and the world is what the handlers act on: the repository that
-- the services share, the queue of jobs, the limiter of logins, the files of sites, the file system
-- of the state and its backups, and the system behind the commands, with its databases.
pub mod Replies
pub mod Accounts
pub mod Sites
pub mod Files
pub mod Databases
pub mod Archives
pub mod Backups
pub mod Operations
pub mod Routes
pub mod Access
pub mod Limits
pub mod Lockout
pub mod Logout
pub mod Overwritten
mod Tests
use nusantara_panel.Base.{
  ℕ, ◌^◌, ℤ, pos, negsuc, Text, codes, [], ◌∷◌, ◌++◌, List, Bool, Option, none, some, Result, ok,
  err, ltb, text_eq, split, take, if◌then◌else◌, Unicode, to_lower, trim_space, cut, equal_fold,
  atoi, number, out_of_range, bad_syntax,
}
use nusantara_panel.Base.Table.{Table}
use nusantara_panel.Store.{User, Site, Job, AuditLog, Time}
use nusantara_panel.Store.FileDb.Snapshot.{Codec, Outcome, Repository}
use nusantara_panel.RateLimit.{LoginLimiter}
use nusantara_panel.Auth
use nusantara_panel.Jobs
use nusantara_panel.Sites.Lifecycle
use nusantara_panel.Sites.Lifecycle.{CreateSiteInput}
use nusantara_panel.Sites.Files.{Os, OsError}
use nusantara_panel.Sites.Listing.{DirEntry, SiteFileEntry}
use nusantara_panel.Sites.Archive.{Archiver}
use nusantara_panel.Db
use nusantara_panel.Db.{CreateUserInput, DatabaseInfo}
use nusantara_panel.Audit.{record_action}
use nusantara_panel.Machine.{Machine}
use nusantara_panel.Backup
use nusantara_panel.Backup.{BackupResult}
use nusantara_panel.Certificates
use nusantara_panel.Monitor.{ServiceState, ServicesMonitor}
use nusantara_panel.Updater
use nusantara_panel.Updater.System
use nusantara_panel.Updater.System.{Ran}
use nusantara_panel.Updater.Launch.{Clock}

pub record Request : Type 0 where
  pub remote_addr : Text
  -- r.Header.Get, r.URL.Query().Get and r.PathValue, each empty for what is missing
  pub header : Text → Text
  pub query : Text → Text
  pub path_value : Text → Text
  pub body : Text

-- The values of the maps that are encoded as JSON.
pub data Value : Type 0 where
  text : Text → Value
  integer : ℕ → Value
  flag : Bool → Value
  moment : Time → Value

-- The body of a response. The time stamps of errors are left out.
pub data Body : Type 0 where
  error_message : Text → Body
  fields : Table Value → Body
  session_opened : Text → Time → Table Value → Body
  site_and_job : Site → Job → Body
  deprovisioning : Job → Body
  one_site : Site → Body
  sites : List Site → Body
  one_job : Job → Body
  jobs : List Job → Body
  audit_logs : List AuditLog → Body
  databases : List DatabaseInfo → Body
  attachment : Text → Text → Text → Body
  site_files : Table Value → List SiteFileEntry → Body
  backup_made : BackupResult → Body
  services : List ServiceState → Body
  no_services : Text → Body
  update_started : Updater.StartResult → Body
  update_checked : Updater.CheckResult → Body
  update_status : Updater.Status → Body
  error_and_status : Text → Option Updater.Status → Body

pub record Response : Type 0 where
  pub status : ℕ
  pub body : Body

pub record LoginRequest : Type 0 where
  pub username : Text
  pub password : Text

pub record ChangePasswordRequest : Type 0 where
  pub current_password : Text
  pub new_password : Text

pub record UpdateSiteContentRequest : Type 0 where
  pub file : Text
  pub content : Text

pub record UploadSiteFileRequest : Type 0 where
  pub path : Text
  pub content_base64 : Text

pub record IssueSslRequest : Type 0 where
  pub domain : Text
  pub email : Text

-- What the build sets and the packages os and runtime tell. A host name that is not told is empty.
pub record Build : Type 0 where
  pub version : Text
  pub commit : Text
  pub build_time : Text
  pub go_version : Text
  pub hostname : Text
  pub goos : Text
  pub goarch : Text
  pub num_cpu : ℕ

-- encoding/json on the bodies of requests: one value with no unknown field and nothing behind it.
pub record Decoders : Type 0 where
  pub login : Text → Option LoginRequest
  pub change_password : Text → Option ChangePasswordRequest
  pub create_site : Text → Option CreateSiteInput
  pub update_site_content : Text → Option UpdateSiteContentRequest
  pub upload_site_file : Text → Option UploadSiteFileRequest
  pub site_dir : Text → Option Text
  pub create_database : Text → Option Text
  pub create_database_user : Text → Option CreateUserInput
  pub restore_backup : Text → Option Text
  pub issue_ssl : Text → Option IssueSslRequest

-- The services behind the handlers, and the packages that they call: json.Marshal on the metadata of
-- the audit log, base64, mime, net.SplitHostPort, os.ReadDir, and archive/zip, whose writers are what
-- they have written. `certbot`, `systemctl` and `updates` are the system
-- as the certificates, the monitor and the updater see it.
pub record Api (F G : Type 0) : Type 0 where
  pub auth : Auth.Service
  pub jobs : Jobs.Config
  pub os : Os F
  pub db : Option (Db.Service G)
  pub sites_apply : Bool
  pub backup_dir : Text
  pub read_dir : Text → F → Result OsError (List DirEntry)
  pub archiver : Archiver F Text
  pub backup : Option Backup.Service
  pub ssl : Option Certificates.Service
  pub certbot : Certificates.Host G
  pub services_monitor : Option ServicesMonitor
  pub systemctl : List Text → G → Ran × G
  pub updater : Option Updater.Service
  pub updates : System.Host G
  pub build : Build
  pub decoders : Decoders
  pub marshal : Option (Table Value) → Result Text Text
  pub base64 : Text → Option Text
  pub type_by_extension : Text → Text
  pub split_host_port : Text → Option Text

pub record World (F G : Type 0) : Type 0 where
  pub repo : Repository
  pub jobs : Jobs.Service
  pub limiter : LoginLimiter
  pub files : F
  pub machine : Machine
  pub system : G

-- The readings of the clock, the random values and the outcomes of the saves while one request is
-- served.
pub record Env : Type 0 where
  pub auth_now : Time
  pub auth_save : Outcome
  pub limit_now : Time
  pub fail_now : Time
  pub login_now : Time
  pub session_now : Time
  pub session_save : Outcome
  pub token : Result Text Text
  pub change_now : Time
  pub change_save : Outcome
  pub audit_now : Time
  pub audit_save : Outcome
  pub site : Lifecycle.Env
  pub archive_now : Time
  pub backup : Backup.Env
  pub monitor_now : Time
  pub update : Clock
  pub status_now : Time

-- A request that waits for ever, on a full channel of jobs, has no reply.
abbrev pub Reply : Type 0 → Type 0 → Type 0
Reply F G = Option (Response × World F G)

-- io.LimitReader(r.Body, 1<<20)
abbrev pub decode_json : {A : Type 0} → (Text → Option A) → Request → Option A
decode_json decode req = decode (take (2 ^ 20) req.body)

abbrev pub write_error : ℕ → Text → Response
write_error status message = record { status = status; body = error_message message }

abbrev pub write_json : ℕ → Body → Response
write_json status body = record { status = status; body = body }

abbrev pub clamped : ℕ → Text → ℕ
clamped fallback v = elim (atoi v) [
  | number (pos n) ↦ if ltb n 1 then fallback else if ltb 500 n then 500 else n
  | number (negsuc n) ↦ fallback
  | out_of_range n ↦ fallback
  | bad_syntax ↦ fallback
]

abbrev pub first_of : List Text → Text
first_of [] = []
first_of (s ∷ rest) = s

module _ ⦃u : Unicode⦄ where
  unfoldable pub bearer_token : Text → Option Text
  unfolding cut
  bearer_token value = elim (cut (trim_space value) 32) [
    | none ↦ none
    | some (scheme, rest) ↦
        if equal_fold scheme (codes "bearer")
        then (if text_eq (trim_space rest) [] then none else some (trim_space rest))
        else none
  ]

  unfoldable pub parse_limit : Request → ℕ → ℕ
  parse_limit req given =
      let fallback = if ltb 0 given then given else 100 in
      let v = trim_space (req.query (codes "limit")) in
      if text_eq v [] then fallback else clamped fallback v

  -- The address that a login is counted under.
  unfoldable pub client_ip : {F G : Type 0} → Api F G → Request → Text
  client_ip a req =
      let forwarded_for = trim_space (req.header (codes "X-Forwarded-For")) in
      if text_eq forwarded_for []
      then elim (a.split_host_port req.remote_addr) [
        | none ↦ trim_space req.remote_addr
        | some host ↦ host
      ]
      else trim_space (first_of (split forwarded_for b','))

  unfoldable pub login_limit_key : {F G : Type 0} → Api F G → Request → Text → Text
  unfolding client_ip
  login_limit_key a req username = client_ip a req ++ (b':' ∷ to_lower (trim_space username))

module _ {F G : Type 0} (a : Api F G) where
  unfoldable pub audited :
      Env → Text → Text → Text → Text → Option (Table Value) → World F G → World F G
  audited env actor action target_type target_id metadata w = record w {
    repo =
        record_action a.jobs.codec env.audit_save env.audit_now actor action target_type target_id
          (a.marshal metadata) w.repo;
  }

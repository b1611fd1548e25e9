-- ===== src/Lib.antt =====
-- Nusantara Panel: a panel that hosts web sites on one machine. An HTTP server hands requests to
-- services; the services keep users, sessions, sites, jobs and an audit log in one store, which is a
-- file of JSON; sites are set up and taken down by jobs, which one worker runs.
--
-- Which file models which part:
--   Base models Go's strings as lists of bytes (Texts), maps with string keys as association lists (Table),
--   results with errors, and Boolean tests. What the package strings does by Unicode's tables, lower
--   case and white space outside ASCII, is the instance argument Unicode.
--   Store models the entities, constants and errors of internal/store/store.go. Times are numbers of
--   nanoseconds since the zero of time.Time, the year 1.
--   Store.FileDb models internal/store/filedb/repository.go. Snapshot has the state, the save by a
--   temporary file and a rename, and the load; Methods has one function for each method, Calls the
--   methods that write as data, Invariant the invariant and that calls keep it; Indexes and Rebuild
--   are about the two indexes, Accounts, Lists and Durability about what callers see. encoding/json is
--   the parameter Codec, with its round trip on texts of valid UTF-8; how a write or a rename ends is
--   an argument of each call. The lock of the repository makes the calls one sequence.
--   Store.Memory models internal/store/memory/site_store.go.
--   RateLimit models internal/security/ratelimit/login_limiter.go.
--   Password models internal/security/password/password.go; bcrypt is a parameter.
--   Auth models internal/service/auth/service.go; sha256 is a parameter, and the random tokens and the
--   readings of the clock are arguments.
--   Jobs models internal/jobs/service.go; the provisioner and the codec of the payloads are parameters. The
--   worker handles one job to its end, so a history is a sequence of calls; it works while it is in its
--   loop, which Start begins, and ends after Stop, when it finds its context done. Where a job is
--   there as well, whether it sees that is an argument. A send to a full channel gives no result.
--   Sites models internal/service/sites/service.go: Paths has the checks of paths and the cleaning of
--   a path, Lifecycle the making and the removal of a site, which enqueue a job, Files the operations
--   on the files of a site over a parameter for the package os; Listing shows a directory, and
--   Archive packs a site; filepath.Walk, filepath.Rel and archive/zip are parameters there. Created,
--   Contained, Listing.Order, Archive.Names and Archive.Archived are about what these leave.
--   Db models internal/db/service.go; the command of MySQL is a parameter. Literals has the way a server
--   reads a quoted text, by the rules of its default mode.
--   Audit models internal/audit/service.go; the encoding of the metadata is a parameter.
--   Http models internal/httpserver/api.go: what the handlers share, Replies the texts of errors and
--   the statuses, Accounts the handlers of accounts and the wrappers that check who asks, Sites, Files,
--   Databases, Archives, Backups and Operations the other handlers, Routes the table of routes; Access, Logout,
--   Lockout, Limits and Overwritten are about what a client meets. The decoders of bodies, base64, mime
--   and net.SplitHostPort are parameters, and the time stamps of errors are left out. A request is
--   served to its end before the next one. The state file of the repository stands in the file system
--   of the backups while a backup or a restore runs.
--   Machine is a file system with the calls of the package os, each of which may fail; Rules has the
--   rules for what a sequence of calls leaves. It has no directories above a path, and a link is
--   followed once.
--   Nginx models internal/provision/nginx.go: the texts of the configuration, and Provision what the
--   provisioner does on a machine; Steps, Rollback and Removal are about what that leaves. The commands
--   of nginx are a parameter, and are taken to change no file. The words of a command are split at the
--   white space of ASCII.
--   Backup models internal/backup/service.go on a machine; Copy, Restored and RoundTrip are about what
--   a copy leaves. The working directory and the format of times are parameters.
--   Platform models internal/platform/oscheck/oscheck.go, and Monitor internal/monitor/services.go, over
--   the command systemctl.
--   App models the start of the panel in internal/app/app.go: how its settings reach the parts, and in
--   what order the parts are made. Started is about what a first start gives.
--   Updater models internal/updater/service.go: its records, the checks of its settings and its pure
--   helpers, System the status of its unit, Launch the start, Check the comparison of commits. The
--   running of commands, with what they print and how they end, and the parsers of URLs and times are
--   parameters. Quoting has a reader of the words of a shell, Running is about the cooldown, whose
--   seconds are counted without the rounding of floating point.
--   Certificates models internal/ssl/service.go; the command certbot is a parameter. Issued is about
--   what a success says.
--   Settings models internal/config/config.go; Ranges is about the settings that are read.
--
-- All functions are total by recursion on their data, so no fuel is used. Identifiers and the audit
-- sequence are bit patterns of their Go types; lengths and limits are the integers of Go.
--
-- Not modelled: the page of internal/httpserver/handlers, the router above the API, and the server
-- and its shutdown in internal/app. Jobs takes the provisioner as its parameter; Nginx is
-- not yet put in its place. The log lines are left out.

pub mod Base
pub mod Settings
pub mod Store
pub mod Updater
pub mod RateLimit
pub mod Password
pub mod Auth
pub mod Jobs
pub mod Sites
pub mod Backup
pub mod Certificates
pub mod Db
pub mod Audit
pub mod Http
pub mod Machine
pub mod Nginx
pub mod Platform
pub mod Monitor
pub mod App

-- ===== src/Store/FileDb/Snapshot.antt =====
-- The state in memory, its file on the disk, and how it is loaded and saved.
use nusantara_panel.Base.{
  ℕ, ◌≡◌, Bool, true, Text, Option, none, some, List, [], ◌∷◌, Result, ok, err, ◌==◌, if◌then◌else◌,
  Unicode, to_lower, text_eq,
}
use nusantara_panel.Base.Table.{Table, insert}
use nusantara_panel.Store.{
  User, Session, Site, Job, AuditLog, Error, empty_path, mkdir_data_dir, read_state, decode_state,
  encode_state, write_tmp_state, replace_state, unsupported_schema_version,
}

abbrev pub schema_version : ℕ
schema_version = 1

pub record Snapshot : Type 0 where
  pub schema_version : ℕ
  pub users : Table User
  pub sessions : Table Session
  pub sites : Table Site
  pub jobs : Table Job
  pub audit_logs : List AuditLog
  pub audit_sequence : ℕ
  pub username_index : Table Text
  pub domain_index : Table Text

-- The files `path` and `path + ".tmp"`.
pub record Disk : Type 0 where
  pub state : Option Text
  pub tmp : Option Text

pub record Repository : Type 0 where
  pub path : Text
  pub snap : Snapshot
  pub disk : Disk

-- A decoded file: a map or a list that the JSON text lacks is nil.
pub record Decoded : Type 0 where
  pub schema_version : ℕ
  pub users : Option (Table User)
  pub sessions : Option (Table Session)
  pub sites : Option (Table Site)
  pub jobs : Option (Table Job)
  pub audit_logs : Option (List AuditLog)
  pub audit_sequence : ℕ
  pub username_index : Option (Table Text)
  pub domain_index : Option (Table Text)

abbrev pub decoded : Snapshot → Decoded
decoded s = record {
  schema_version = s.schema_version;
  users = some s.users;
  sessions = some s.sessions;
  sites = some s.sites;
  jobs = some s.jobs;
  audit_logs = some s.audit_logs;
  audit_sequence = s.audit_sequence;
  username_index = some s.username_index;
  domain_index = some s.domain_index;
}

-- encoding/json on a snapshot: what it writes it reads back, if all texts are valid UTF-8 (`plain`).
pub record Codec : Type 0 where
  pub encode : Snapshot → Result Text Text
  pub decode : Text → Result Text Decoded
  pub plain : Snapshot → Bool
  pub decode-encode :
      (s : Snapshot) (raw : Text) → plain s ≡ true → encode s ≡ ok raw → decode raw ≡ ok (decoded s)

-- How the writing of the temporary file and its renaming go; a failed write may leave a part.
pub data Outcome : Type 0 where
  saved : Outcome
  write_fails : Option Text → Text → Outcome
  rename_fails : Text → Outcome

abbrev pub new_snapshot : Snapshot
new_snapshot = record {
  schema_version = schema_version;
  users = [];
  sessions = [];
  sites = [];
  jobs = [];
  audit_logs = [];
  audit_sequence = 0;
  username_index = [];
  domain_index = [];
}

abbrev pub Step : Type 0 → Type 0
Step A = Repository → Result Error A × Repository

-- The end of `save`, after the state is encoded.
unfoldable pub replace_file : Outcome → Text → Step Unit
replace_file saved raw r = (ok tt, record r { disk = record { state = some raw; tmp = none } })
replace_file (write_fails part cause) raw r =
    (err (write_tmp_state cause), record r { disk = record { state = r.disk.state; tmp = part } })
replace_file (rename_fails cause) raw r =
    (err (replace_state cause), record r { disk = record { state = r.disk.state; tmp = some raw } })

unfoldable pub save : Codec → Outcome → Step Unit
unfolding replace_file
save codec o r = elim (codec.encode r.snap) [
  | err cause ↦ (err (encode_state cause), r)
  | ok raw ↦ replace_file o raw r
]

-- Whether os.ReadFile can read a file that exists.
pub data Reading : Type 0 where
  readable : Reading
  unreadable : Text → Reading

abbrev or_empty {ℓ} : {A : Type ℓ} → Option (List A) → List A
or_empty none = []
or_empty (some xs) = xs

module _ ⦃u : Unicode⦄ where
  unfoldable pub index_usernames : Table User → Table Text → Table Text
  index_usernames [] index = index
  index_usernames ((id, user) ∷ m) index =
      index_usernames m (insert (to_lower user.username) id index)

  unfoldable pub index_domains : Table Site → Table Text → Table Text
  index_domains [] index = index
  index_domains ((id, site) ∷ m) index = index_domains m (insert (to_lower site.domain) id index)

  unfoldable pub rebuild_indexes : Snapshot → Snapshot
  unfolding index_usernames index_domains
  rebuild_indexes s = record s {
    username_index = index_usernames s.users [];
    domain_index = index_domains s.sites [];
  }

  abbrev pub filled : Decoded → Snapshot
  filled d = record {
    schema_version = d.schema_version;
    users = or_empty d.users;
    sessions = or_empty d.sessions;
    sites = or_empty d.sites;
    jobs = or_empty d.jobs;
    audit_logs = or_empty d.audit_logs;
    audit_sequence = d.audit_sequence;
    username_index = or_empty d.username_index;
    domain_index = or_empty d.domain_index;
  }

  -- The end of `load`, with the file's text at hand.
  unfoldable pub load_text : Codec → Text → Step Unit
  load_text codec raw r = elim (codec.decode raw) [
    | err cause ↦ (err (decode_state cause), r)
    | ok d ↦
        if d.schema_version == schema_version
        then (ok tt, record r { snap = rebuild_indexes (filled d) })
        else (err (unsupported_schema_version d.schema_version), r)
  ]

  unfoldable pub load : Codec → Reading → Outcome → Step Unit
  load codec (unreadable cause) o r = (err (read_state cause), r)
  load codec readable o r = elim r.disk.state [
    | none ↦ save codec o r
    | some raw ↦ load_text codec raw r
  ]

  -- `dir` is the error of os.MkdirAll, if there is one; a failure gives no repository.
  unfoldable pub new :
      Codec → Option Text → Reading → Outcome → Text → Disk → Result Error Repository
  new codec dir reading o path disk = if text_eq path [] then err empty_path else elim dir [
    | some cause ↦ err (mkdir_data_dir cause)
    | none ↦
        let (res, r) =
          load codec reading o (record { path = path; snap = new_snapshot; disk = disk }) in
        elim res [ ok _ ↦ ok r | err e ↦ err e ]
  ]

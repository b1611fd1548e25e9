-- ===== src/Http/Databases.antt =====
-- The handlers of the databases.
use nusantara_panel.Base.{
  List, Text, codes, [], ◌∷◌, none, some, Result, ok, err, Unicode, trim_space, text_eq,
  if◌then◌else◌,
}
use nusantara_panel.Db
use nusantara_panel.Db.{list_databases, create_database, create_database_user, CreateUserInput}
use nusantara_panel.Http.{
  Request, Response, World, Env, Api, fields, databases, text, decode_json, write_error, write_json,
  audited,
}
use nusantara_panel.Http.Replies.{invalid_body, db_message, db_error}
use nusantara_panel.Http.Accounts.{Principal}

abbrev not_configured : Response
not_configured = write_error 500 (codes "db service is not configured")

module _ ⦃u : Unicode⦄ {F G : Type 0} (a : Api F G) (env : Env) where
  abbrev listed : World F G → Result Db.Error (List Db.DatabaseInfo) × G → Response × World F G
  listed w (ok items, g) = (write_json 200 (databases items), record w { system = g })
  listed w (err e, g) = (write_error 500 (db_message e), record w { system = g })

  unfoldable pub handle_list_databases : World F G → Response × World F G
  handle_list_databases w = elim a.db [
    | none ↦ (not_configured, w)
    | some db ↦ listed w (list_databases db w.system)
  ]

  abbrev database_created :
      Principal → Text → World F G → Result Db.Error (Unit {0}) × G → Response × World F G
  database_created p name w (err e, g) = (db_error e, record w { system = g })
  database_created p name w (ok _, g) = (
    write_json 201
        (fields ((codes "status", text (codes "ok")) ∷ (codes "database", text name) ∷ [])),
    audited a env p.user.id (codes "db.create_database") (codes "database") name none
        (record w { system = g }),
  )

  unfoldable pub handle_create_database : Principal → Request → World F G → Response × World F G
  unfolding audited
  handle_create_database p req w = elim a.db [
    | none ↦ (not_configured, w)
    | some db ↦ elim (decode_json a.decoders.create_database req) [
      | none ↦ (invalid_body, w)
      | some name ↦ database_created p name w (create_database db name w.system)
    ]
  ]

  abbrev host_of : CreateUserInput → Text
  host_of input = if text_eq (trim_space input.host) [] then codes "localhost" else input.host

  abbrev database_user_created :
      Principal
      → CreateUserInput
      → World F G
      → Result Db.Error (Unit {0}) × G
      → Response × World F G
  database_user_created p input w (err e, g) = (db_error e, record w { system = g })
  database_user_created p input w (ok _, g) = (
    write_json 201 (
        fields (
          (codes "status", text (codes "ok"))
          ∷ (codes "database", text input.database)
          ∷ (codes "username", text input.username)
          ∷ (codes "host", text (host_of input))
          ∷ [])),
    audited a env p.user.id (codes "db.create_user") (codes "database") input.database
        (some ((codes "username", text input.username) ∷ (codes "host", text (host_of input)) ∷ []))
        (record w { system = g }),
  )

  unfoldable pub handle_create_database_user :
      Principal → Request → World F G → Response × World F G
  unfolding audited
  handle_create_database_user p req w = elim a.db [
    | none ↦ (not_configured, w)
    | some db ↦ elim (decode_json a.decoders.create_database_user req) [
      | none ↦ (invalid_body, w)
      | some input ↦ database_user_created p input w (create_database_user db input w.system)
    ]
  ]

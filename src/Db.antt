-- ===== src/Db.antt =====
-- internal/db/service.go: the databases and their users. The command of MySQL is a parameter, which
-- acts on servers of any kind.
pub mod Literals
mod Tests
use nusantara_panel.Base.{
  ◌||◌, ◌&&◌, not, Text, codes, [], ◌∷◌, ◌++◌, List, Bool, true, false, ℕ, length, all, any, leb,
  ltb, is_upper, is_lower, is_digit, ◌==◌, text_eq, replace_all, split, Result, ok, err,
  if◌then◌else◌, Unicode, to_lower, trim_space, ◌*◌, ◌^◌,
}

pub data Error : Type 0 where
  invalid_database_name invalid_username invalid_password invalid_host : Error
  command_fails : Text → Error

-- The command on servers `F`: what it prints, or its error, for a statement.
pub record Service (F : Type 0) : Type 0 where
  pub apply : Bool
  pub run : Text → F → Result Text Text × F

pub record DatabaseInfo : Type 0 where
  pub name : Text
  pub system : Bool

pub record CreateUserInput : Type 0 where
  pub database : Text
  pub username : Text
  pub password : Text
  pub host : Text

abbrev pub system_databases : List Text
system_databases =
    codes "mysql" ∷ codes "information_schema" ∷ codes "performance_schema" ∷ codes "sys" ∷ []

-- ^[a-zA-Z0-9_]+$ and ^[a-zA-Z0-9._%-]+$
abbrev pub is_identifier_byte : ℕ → Bool
is_identifier_byte c = is_lower c || is_upper c || is_digit c || c == b'_'

abbrev pub is_host_byte : ℕ → Bool
is_host_byte c =
    is_lower c || is_upper c || is_digit c || c == b'.' || c == b'_' || c == b'%' || c == b'-'

unfoldable pub is_valid_identifier : Text → Bool
is_valid_identifier name =
    if ltb (length name) 1 || ltb 64 (length name)
    then false
    else leb 1 (length name) && all is_identifier_byte name

unfoldable pub escape_sql_string : Text → Text
unfolding replace_all
escape_sql_string value = replace_all value (codes "'") (codes "''")

abbrev pub printed : {F : Type 0} → Result Text Text × F → Result Error (Unit {0}) × F
printed (ok out, f) = (ok tt, f)
printed (err cause, f) = (err (command_fails cause), f)

unfoldable pub exec_sql : {F : Type 0} → Service F → Text → F → Result Error (Unit {0}) × F
exec_sql s sql f = if s.apply then printed (s.run sql f) else (ok tt, f)

abbrev pub lines : Text → List Text
lines raw = if text_eq raw [] then [] else split raw 10

abbrev pub account : Text → Text → Text
account username host =
    codes "'" ++ escape_sql_string username ++ codes "'@'" ++ escape_sql_string host ++ codes "'"

abbrev pub create_user_sql : Text → Text → Text → Text → Text
create_user_sql database username password host =
    codes "CREATE USER IF NOT EXISTS "
    ++ account username host
    ++ codes " IDENTIFIED BY '"
    ++ escape_sql_string password
    ++ codes "'; GRANT ALL PRIVILEGES ON `"
    ++ database
    ++ codes "`.* TO "
    ++ account username host
    ++ codes "; FLUSH PRIVILEGES;"

module _ ⦃u : Unicode⦄ {F : Type 0} (s : Service F) where
  abbrev pub infos : List Text → List DatabaseInfo
  infos [] = []
  infos (line ∷ rest) =
      let others = infos rest in
      let name = trim_space line in
      if text_eq name []
      then others
      else record { name = name; system = any (text_eq (to_lower name)) system_databases } ∷ others

  abbrev shown : Result Text Text × F → Result Error (List DatabaseInfo) × F
  shown (ok out, f) = (ok (infos (lines (trim_space out))), f)
  shown (err cause, f) = (err (command_fails cause), f)

  unfoldable pub list_databases : F → Result Error (List DatabaseInfo) × F
  list_databases f = if s.apply then shown (s.run (codes "SHOW DATABASES;") f) else (ok [], f)

  unfoldable pub create_database : Text → F → Result Error (Unit {0}) × F
  unfolding exec_sql
  create_database name f =
      let database = trim_space name in
      if is_valid_identifier database
      then exec_sql s
          (codes "CREATE DATABASE IF NOT EXISTS `"
            ++ database
            ++ codes "` CHARACTER SET utf8mb4 COLLATE utf8mb4_unicode_ci;")
          f
      else (err invalid_database_name, f)

  unfoldable pub create_database_user : CreateUserInput → F → Result Error (Unit {0}) × F
  unfolding exec_sql
  create_database_user input f =
      let database = trim_space input.database in
      let username = trim_space input.username in
      let given = trim_space input.host in
      let host = if text_eq given [] then codes "localhost" else given in
      if not (is_valid_identifier database)
      then (err invalid_database_name, f)
      else if not (is_valid_identifier username)
      then (err invalid_username, f)
      else if ltb (length (trim_space input.password)) 8
      then (err invalid_password, f)
      else if not (leb 1 (length host) && all is_host_byte host)
      then (err invalid_host, f)
      else exec_sql s (create_user_sql database username input.password host) f

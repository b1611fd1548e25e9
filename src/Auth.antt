-- ===== src/Auth.antt =====
-- internal/service/auth/service.go: logging in and out, and who stands behind a token. A method takes
-- the readings of the clock, the random token and the outcome of its save, and gives its result and
-- the next repository.
pub mod Sessions
pub mod Tests
pub mod Passwords
use nusantara_panel.Password
use nusantara_panel.Password.{Bcrypt, hash, verify}
use nusantara_panel.Store
use nusantara_panel.Store.{User, Session, Time, not_found, role_admin}
use nusantara_panel.Store.FileDb.Snapshot.{Codec, Outcome, Repository}
use nusantara_panel.Store.FileDb.Methods.{
  count_users, create_user, get_user_by_username, get_user_by_id, update_user_password,
  create_session, get_session_by_token_hash, delete_session_by_token_hash,
}
use nusantara_panel.Base.{
  negsuc, pos, ℤ, ◌-◌, ℕ, ◌+◌, ◌/◌, ◌%◌, Text, [], ◌∷◌, Bool, true, false, not, ◌||◌, Result, ok,
  err, if◌then◌else◌, ltb, text_eq, Unicode, trim_space,
}

pub data Error : Type 0 where
  invalid_credentials unauthorized invalid_password bootstrap_password_empty : Error
  password_error : Password.Error → Error
  random_fails : Text → Error
  store_error : Store.Error → Error

-- `errors.Is(err, store.ErrNotFound)` gives `e`, and any other error is passed on.
abbrev unless_missing : Error → Store.Error → Error
unless_missing e not_found = e
unless_missing e other = store_error other

-- What the service is built on: its store's codec, the life of a token, and the two packages
-- bcrypt and sha256. The life is a time.Duration, an int64 of nanoseconds.
pub record Service : Type 0 where
  pub codec : Codec
  pub token_ttl : ℤ
  pub bcrypt : Bcrypt
  pub sha256 : Text → Text

-- now.Add(ttl). A reading of the clock is later after the zero of time.Time, the year 1, than any
-- duration is long, so the difference does not stop at that zero.
abbrev pub time_add : Time → ℤ → Time
time_add now (pos n) = now + n
time_add now (negsuc n) = now - (n + 1)

abbrev hex_digit : ℕ → ℕ
hex_digit n = if ltb n 10 then b'0' + n else b'a' + (n - 10)

-- hex.EncodeToString
unfoldable pub hex_encode : Text → Text
hex_encode [] = []
hex_encode (c ∷ s) = hex_digit (c / 16) ∷ hex_digit (c % 16) ∷ hex_encode s

unfoldable pub hash_token : Service → Text → Text
hash_token s token = hex_encode (s.sha256 token)

abbrev pub stored :
    Result Store.Error (Unit {0}) × Repository → Result Error (Unit {0}) × Repository
stored (ok _, r) = (ok tt, r)
stored (err e, r) = (err (store_error e), r)

module _ ⦃u : Unicode⦄ where
  bootstrap :
      Service
      → Outcome
      → Time
      → Result Text Text
      → Text
      → Text
      → Repository
      → Result Error (Unit {0}) × Repository
  bootstrap s o now (err cause) username encoded r = (err (random_fails cause), r)
  bootstrap s o now (ok id) username encoded r = stored (
      create_user s.codec o
        (record {
          id = id;
          username = trim_space username;
          password_hash = encoded;
          role = role_admin;
          is_active = true;
          created_at = now;
          updated_at = now;
        })
        r)

  unfoldable pub ensure_bootstrap_admin :
      Service
      → Outcome
      → Time
      → Result Text Text
      → Text
      → Text
      → Repository
      → Result Error (Unit {0}) × Repository
  unfolding bootstrap
  ensure_bootstrap_admin s o now id username plain r =
      if ltb 0 (count_users r)
      then (ok tt, r)
      else if text_eq (trim_space plain) []
      then (err bootstrap_password_empty, r)
      else elim (hash s.bcrypt plain) [
        | err e ↦ (err (password_error e), r)
        | ok encoded ↦ bootstrap s o now id username encoded r
      ]

  abbrev granted :
      Text
      → Time
      → User
      → Result Store.Error (Unit {0}) × Repository
      → Result Error (Text × Time × User) × Repository
  granted token expires_at user (ok _, r) =
      (ok (token, expires_at, record user { password_hash = [] }), r)
  granted token expires_at user (err e, r) = (err (store_error e), r)

  -- The end of `login`, for a user whose password has been verified.
  open_session :
      Service
      → Outcome
      → Time
      → Time
      → Result Text Text
      → User
      → Repository
      → Result Error (Text × Time × User) × Repository
  open_session s o now now' (err cause) user r = (err (random_fails cause), r)
  open_session s o now now' (ok token) user r = granted token (time_add now s.token_ttl) user (
      create_session s.codec o
        (record {
          token_hash = hash_token s token;
          user_id = user.id;
          expires_at = time_add now s.token_ttl;
          created_at = now';
        })
        r)

  unfoldable pub login :
      Service
      → Outcome
      → Time
      → Time
      → Result Text Text
      → Text
      → Text
      → Repository
      → Result Error (Text × Time × User) × Repository
  unfolding open_session
  login s o now now' token username plain r = elim (get_user_by_username (trim_space username) r) [
    | err e ↦ (err (unless_missing invalid_credentials e), r)
    | ok user ↦
        if not user.is_active || not (verify s.bcrypt plain user.password_hash)
        then (err invalid_credentials, r)
        else open_session s o now now' token user r
  ]

  unfoldable pub change_password :
      Service
      → Outcome
      → Time
      → Text
      → Text
      → Text
      → Repository
      → Result Error (Unit {0}) × Repository
  change_password s o now user_id current next r = elim (get_user_by_id user_id r) [
    | err e ↦ (err (unless_missing unauthorized e), r)
    | ok user ↦
        if verify s.bcrypt current user.password_hash
        then elim (hash s.bcrypt next) [
          | err e ↦ (err (password_error e), r)
          | ok encoded ↦ stored (update_user_password s.codec o user.id encoded now r)
        ]
        else (err invalid_password, r)
  ]

-- The user of a session that has not run out.
session_user : Session → Repository → Result Error User
session_user session r = elim (get_user_by_id session.user_id r) [
  | err e ↦ err (unless_missing unauthorized e)
  | ok user ↦ if user.is_active then ok (record user { password_hash = [] }) else err unauthorized
]

-- The error of the deletion of an expired session is dropped.
unfoldable pub authenticate :
    Service → Outcome → Time → Text → Repository → Result Error User × Repository
unfolding session_user
authenticate s o now token r =
    if text_eq token []
    then (err unauthorized, r)
    else elim (get_session_by_token_hash (hash_token s token) r) [
      | err e ↦ (err (unless_missing unauthorized e), r)
      | ok session ↦
          if ltb session.expires_at now
          then (err unauthorized, (delete_session_by_token_hash s.codec o (hash_token s token) r).1)
          else (session_user session r, r)
    ]

unfoldable pub logout : Service → Outcome → Text → Repository → Result Error (Unit {0}) × Repository
logout s o token r =
    if text_eq token []
    then (err unauthorized, r)
    else stored (delete_session_by_token_hash s.codec o (hash_token s token) r)

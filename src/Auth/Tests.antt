-- ===== src/Auth/Tests.antt =====
-- The service on a state with one user.
use nusantara_panel.Base.{
  Text, codes, [], ◌∷◌, ◌≡◌, ◌≢◌, refl, ok, err, some, none, ltb, ne_of_text_eq, text_eq,
  ascii_tables, has_prefix, if◌then◌else◌, trim_space, to_lower,
}
use nusantara_panel.Base.Table.{lookup, insert}
use nusantara_panel.Store.{User, Session}
use native.Mathlib.Decide.{ℕ_discrete}
use nusantara_panel.Store.FileDb.Snapshot.{
  Snapshot, Repository, save, replace_file, saved, new_snapshot, write_fails,
}
use nusantara_panel.Store.FileDb.Methods.{
  create_user, get_user_by_username, get_user_by_id, create_session, get_session_by_token_hash,
  delete_session_by_token_hash, update_user_password,
}
use nusantara_panel.Store.FileDb.Calls.{creates_user, apply}
use nusantara_panel.Store.FileDb.Invariant.Steps.{run, run-IsValid, new_snapshot-IsValid}
use nusantara_panel.Store.FileDb.Tests.{
  one_snapshot, Snapshot-discrete, empty_repository, admin, blog_codec,
}
use nusantara_panel.Password.Tests.{plain_bcrypt}
use nusantara_panel.Password.{verify, hash}
use nusantara_panel.Auth.{
  pos, time_add, Service, hash_token, hex_encode, login, authenticate, logout, unauthorized,
  change_password, invalid_credentials,
}
use nusantara_panel.Auth.Sessions.{authenticate-logout, authenticate-login}
use nusantara_panel.Auth.Passwords.{
  Vouched, authenticate-Vouched, login_refused, change_password-Changed, Changed,
}

abbrev pub ann : User
ann = record admin { password_hash = codes "$2a$letmein99" }

abbrev one_user : Repository
one_user = run blog_codec ((saved, creates_user ann) ∷ []) empty_repository

abbrev pub session : Session
session = record {
  token_hash = codes "746f6b";
  user_id = codes "u1";
  expires_at = 110;
  created_at = 11;
}

abbrev pub logged_in : Snapshot
logged_in = record new_snapshot {
  users = (codes "u1", ann) ∷ [];
  username_index = (codes "ann", codes "u1") ∷ [];
  sessions = (codes "746f6b", session) ∷ [];
}

abbrev pub service : Service
service = record {
  codec = one_snapshot logged_in;
  token_ttl = pos 100;
  bcrypt = plain_bcrypt;
  sha256 = λ s. s;
}

abbrev pub token : Text
token = codes "tok"

token_given : token ≢ []
unfolding text_eq
token_given = ne_of_text_eq token [] refl

authenticate-logout_example :
    authenticate service saved 60 token
      (logout service (write_fails none (codes "full")) token one_user).1
    ≡ (err unauthorized, (logout service (write_fails none (codes "full")) token one_user).1)
authenticate-logout_example =
    authenticate-logout service token token_given (write_fails none (codes "full")) saved 60
      one_user

abbrev pub with_session : Repository
with_session = record empty_repository {
  snap = logged_in;
  disk = record { state = some []; tmp = none };
}

authenticate-login_example :
    (110 ≡ time_add 10 service.token_ttl)
    × (authenticate service saved 60 token with_session ≡ (
        if ltb 110 60
        then (
          err unauthorized,
          (delete_session_by_token_hash service.codec saved
              (hash_token service token)
              with_session).1,
        )
        else (ok (record ann { password_hash = [] }), with_session)))
unfolding has_prefix login get_user_by_username create_session verify to_lower trim_space text_eq
    apply create_user save replace_file lookup insert hash_token hex_encode Snapshot-discrete
    ℕ_discrete
authenticate-login_example =
    authenticate-login service saved saved 10 11 60 (ok token) (codes " Ann") (codes "letmein99")
      one_user token 110 (record ann { password_hash = [] }) with_session
      (run-IsValid blog_codec ((saved, creates_user ann) ∷ []) empty_repository new_snapshot-IsValid
        (refl, tt))
      token_given refl

authenticate-Vouched_example :
    Vouched service 60 token (record ann { password_hash = [] }) with_session with_session
unfolding authenticate get_session_by_token_hash get_user_by_id text_eq lookup hash_token hex_encode
authenticate-Vouched_example =
    authenticate-Vouched service saved 60 token (record ann { password_hash = [] }) with_session
      with_session refl

login_refused_example :
    login service saved 10 11 (ok token) (codes "bob") (codes "letmein99") one_user
    ≡ (err invalid_credentials, one_user)
unfolding get_user_by_username to_lower trim_space text_eq apply create_user save replace_file
    lookup insert Snapshot-discrete ℕ_discrete
login_refused_example =
    login_refused service saved 10 11 (ok token) (codes "bob") (codes "letmein99") one_user
      (λ good. absurd (cc (good.found)))

abbrev renewed : Snapshot
renewed = record new_snapshot {
  users =
      (codes "u1", record ann { password_hash = codes "$2a$open-sesame"; updated_at = 20 }) ∷ [];
  username_index = (codes "ann", codes "u1") ∷ [];
}

abbrev renewing : Service
renewing = record service { codec = one_snapshot renewed }

change_password-Changed_example :
    Changed renewing 20
      (codes "u1")
      (codes "letmein99")
      (codes "open-sesame")
      one_user
      (record empty_repository { snap = renewed; disk = record { state = some []; tmp = none } })
unfolding has_prefix change_password get_user_by_id update_user_password hash verify trim_space
    text_eq apply create_user save replace_file lookup insert to_lower Snapshot-discrete ℕ_discrete
change_password-Changed_example =
    change_password-Changed renewing saved 20 (codes "u1") (codes "letmein99") (codes "open-sesame")
      one_user
      (record empty_repository { snap = renewed; disk = record { state = some []; tmp = none } })
      (run-IsValid blog_codec ((saved, creates_user ann) ∷ []) empty_repository new_snapshot-IsValid
        (refl, tt))
      refl

abbrev founded : Snapshot
founded = record new_snapshot {
  users =
      (
        codes "u9",
        record ann { id = codes "u9"; username = codes "root"; created_at = 20; updated_at = 20 },
      )
      ∷ [];
  username_index = (codes "root", codes "u9") ∷ [];
}

abbrev founding : Service
founding = record service { codec = one_snapshot founded }

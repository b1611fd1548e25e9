-- ===== src/Http/Accounts.antt =====
-- The handlers of /v1/auth, and the two wrappers that check who asks.
use nusantara_panel.Base.{
  Text, codes, [], ◌∷◌, none, some, Result, ok, err, Bool, true, false, text_eq, if◌then◌else◌,
  Unicode, trim_space,
}
use nusantara_panel.Base.Table.{Table}
use nusantara_panel.Store.{User, Time}
use nusantara_panel.Store.FileDb.Snapshot.{Repository}
use nusantara_panel.RateLimit.{LoginLimiter, allow, register_failure, register_success}
use nusantara_panel.Auth
use nusantara_panel.Auth.{
  login, authenticate, change_password, invalid_credentials, invalid_password,
}
use nusantara_panel.Http.{
  Request, Response, World, Env, Api, Reply, LoginRequest, Value, Body, fields, session_opened,
  text, decode_json, write_error, write_json, bearer_token, login_limit_key, audited,
}
use nusantara_panel.Http.Replies.{auth_message, unauthorized, invalid_body, internal_error}

-- Who asks: what the wrappers put into the context of a request.
pub record Principal : Type 0 where
  pub user : User
  pub token : Text

abbrev pub status_ok : Body
status_ok = fields ((codes "status", text (codes "ok")) ∷ [])

abbrev pub profile : User → Table Value
profile user =
    (codes "id", text user.id)
    ∷ (codes "username", text user.username)
    ∷ (codes "role", text user.role)
    ∷ []

module _ ⦃u : Unicode⦄ {F G : Type 0} (a : Api F G) (env : Env) where
  -- The end of `handle_login`, by how the login went.
  unfoldable pub logged_in :
      Text
      → LoginRequest
      → World F G
      → Result Auth.Error (Text × Time × User) × Repository
      → Response × World F G
  unfolding audited
  logged_in key req w (ok (token, expires_at, user), r) = (
    write_json 200 (session_opened token expires_at (profile user)),
    audited a env user.id (codes "auth.login.success") (codes "user") user.id
        (some ((codes "username", text user.username) ∷ []))
        (record w { repo = r; limiter = register_success key w.limiter }),
  )
  logged_in key req w (err invalid_credentials, r) = (
    write_error 401 (codes "invalid credentials"),
    audited a env [] (codes "auth.login.failed") (codes "user") (trim_space req.username) none
        (record w { repo = r; limiter = register_failure key env.fail_now w.limiter }),
  )
  logged_in key req w (err _, r) = (internal_error, record w { repo = r })

  unfoldable pub login_allowed :
      Text → LoginRequest → World F G → Bool × LoginLimiter → Response × World F G
  unfolding logged_in
  login_allowed key req w (false, limiter) =
      (write_error 429 (codes "too many login attempts"), record w { limiter = limiter })
  login_allowed key req w (true, limiter) =
      logged_in key req (record w { limiter = limiter })
        (login a.auth env.session_save env.login_now env.session_now env.token req.username
          req.password w.repo)

  unfoldable pub handle_login : Request → World F G → Response × World F G
  unfolding login_allowed login_limit_key
  handle_login req w = elim (decode_json a.decoders.login req) [
    | none ↦ (invalid_body, w)
    | some body ↦
        login_allowed (login_limit_key a req body.username) body w
          (allow (login_limit_key a req body.username) env.limit_now w.limiter)
  ]

  abbrev pub password_changed :
      User → World F G → Result Auth.Error (Unit {0}) × Repository → Response × World F G
  password_changed user w (ok _, r) = (
    write_json 200 status_ok,
    audited a env user.id (codes "auth.change_password") (codes "user") user.id none
        (record w { repo = r }),
  )
  password_changed user w (err invalid_password, r) =
      (write_error 401 (codes "invalid current password"), record w { repo = r })
  password_changed user w (err e, r) = (write_error 400 (auth_message e), record w { repo = r })

  unfoldable pub handle_change_password : Principal → Request → World F G → Response × World F G
  handle_change_password p req w = elim (decode_json a.decoders.change_password req) [
    | none ↦ (invalid_body, w)
    | some body ↦ password_changed p.user w (
        change_password a.auth env.change_save env.change_now p.user.id body.current_password
          body.new_password w.repo)
  ]

  abbrev pub logged_out :
      User → World F G → Result Auth.Error (Unit {0}) × Repository → Response × World F G
  logged_out user w (ok _, r) = (
    write_json 200 status_ok,
    audited a env user.id (codes "auth.logout") (codes "user") user.id none (record w { repo = r }),
  )
  logged_out user w (err e, r) = (unauthorized, record w { repo = r })

  unfoldable pub handle_logout : Principal → World F G → Response × World F G
  handle_logout p w = logged_out p.user w (Auth.logout a.auth env.session_save p.token w.repo)

  unfoldable pub handle_me : Principal → World F G → Response × World F G
  handle_me p w = (write_json 200 (fields (profile p.user)), w)

  -- The request goes on only for a token that is accepted, with the user of the token.
  abbrev pub authenticated :
      Text
      → (Principal → World F G → Reply F G)
      → World F G
      → Result Auth.Error User × Repository
      → Reply F G
  authenticated token next w (ok user, r) =
      next (record { user = user; token = token }) (record w { repo = r })
  authenticated token next w (err e, r) = some (unauthorized, record w { repo = r })

  unfoldable pub require_auth :
      (Principal → World F G → Reply F G) → Request → World F G → Reply F G
  unfolding bearer_token
  require_auth next req w = elim (bearer_token (req.header (codes "Authorization"))) [
    | none ↦ some (unauthorized, w)
    | some token ↦
        authenticated token next w (authenticate a.auth env.auth_save env.auth_now token w.repo)
  ]

  unfoldable pub with_role :
      Text → (Principal → World F G → Reply F G) → Principal → World F G → Reply F G
  with_role role next p w =
      if text_eq p.user.role role then next p w else some (write_error 403 (codes "forbidden"), w)

  unfoldable pub require_role :
      Text → (Principal → World F G → Reply F G) → Request → World F G → Reply F G
  unfolding require_auth with_role
  require_role role next req w = require_auth (with_role role next) req w

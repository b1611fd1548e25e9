-- ===== src/Http/Logout.antt =====
-- A logout, as a client sees it: the token is of no more use on any route.
use nusantara_panel.Base.{
  text_eq_self, cut, ◌≡◌, ◌≢◌, refl, sym, ap, ◌∙◌, Text, codes, [], none, some, Result, ok, err,
  text_eq, Bool-cases, inl, inr, Option-cases, arith, Unicode, trim_space,
}
use mathlib.Core.Option.{some-injective}
use nusantara_panel.Base.Table.{lookup, lookup-delete_self}
use nusantara_panel.Auth
use nusantara_panel.Auth.{hash_token, authenticate, unauthorized}
use nusantara_panel.Auth.Sessions.{authenticate_missing, logout-eq, delete_session-snap}
use nusantara_panel.Store.FileDb.Snapshot.{Codec, Outcome, Repository}
use nusantara_panel.Store.FileDb.Methods.{create_audit_log}
use nusantara_panel.Store.FileDb.Invariant.{save-snap}
use nusantara_panel.Audit.{record_action}
use nusantara_panel.Http.{
  User, Reply, audited, AuditLog, Request, World, Env, Api, bearer_token, write_json,
}
use nusantara_panel.Http.Replies
use nusantara_panel.Http.Accounts.{
  Principal, handle_logout, status_ok, require_auth, require_role, logged_out,
}
use nusantara_panel.Http.Routes.{UserRoute, Route, for_user, for_admin, serve, handle_user}
use nusantara_panel.Http.Access.{require_auth-cases, TurnedAway}

-- A bearer token is never empty.
bearer_token_given :
    ⦃u : Unicode⦄ → (value token : Text) → bearer_token value ≡ some token → token ≢ []
unfolding bearer_token text_eq
bearer_token_given value token h e = elim (Option-cases (cut (trim_space value) 32)) [
  | inl f ↦ absurd (cc (rw (f, bearer_token) at h))
  | inr ((scheme, rest), f) ↦ elim (Bool-cases (text_eq (trim_space rest) [])) [
    | inl g ↦ ground arith
    | inr g ↦ ground (arith, text_eq_self [])
  ]
]

create_audit_log-sessions :
    (codec : Codec) (o : Outcome) (entry : AuditLog) (r : Repository)
    → (create_audit_log codec o entry r).1.snap.sessions ≡ r.snap.sessions
unfolding create_audit_log
create_audit_log-sessions codec o entry r =
    ap (λ s. s.sessions) (save-snap codec o (record r { snap = _ }))

module _ ⦃u : Unicode⦄ {F G : Type 0} (a : Api F G) where
  logged_out-sessions :
      (env : Env) (user : User) (w w' : World F G) (p : Result Auth.Error (Unit {0}) × Repository)
      → logged_out a env user w p ≡ (write_json 200 status_ok, w')
      → w'.repo.snap.sessions ≡ p.1.snap.sessions
  unfolding audited record_action
  logged_out-sessions env user w w' (ok _, r) h =
      ap (λ x. x.1.repo.snap.sessions) (sym h)
      ∙ create_audit_log-sessions a.jobs.codec env.audit_save _ r
  logged_out-sessions env user w w' (err e, r) h = ground arith

  -- A logout that reports success leaves no session of the token.
  handle_logout-sessions :
      (env : Env) (p : Principal) (w w' : World F G)
      → p.token ≢ []
      → handle_logout a env p w ≡ (write_json 200 status_ok, w')
      → lookup (hash_token a.auth p.token) w'.repo.snap.sessions ≡ none
  unfolding handle_logout
  handle_logout-sessions env p w w' given h =
      let out = Auth.logout a.auth env.session_save p.token w.repo in
      rw
        (
          logged_out-sessions env p.user w w' out h,
          logout-eq a.auth p.token given env.session_save w.repo,
          delete_session-snap a.auth.codec env.session_save (hash_token a.auth p.token) w.repo,
        )
        (lookup-delete_self (hash_token a.auth p.token) w.repo.snap.sessions)

  not-TurnedAway :
      (env : Env) (req : Request) (w w' : World F G) (reply : Reply F G)
      → TurnedAway a env req w reply
      → reply ≡ some (write_json 200 status_ok, w')
      → ⊥
  not-TurnedAway env req w w' reply away h = elim away.refused [
    | inl e ↦ ground (arith, away.replied)
    | inr e ↦ ground (arith, away.replied)
  ]

  -- A request whose token has no session is refused on every route but the login.
  serve_unknown :
      (env : Env) (req : Request) (route : Route) (token : Text) (w : World F G)
      → route ≢ Route.login
      → bearer_token (req.header (codes "Authorization")) ≡ some token
      → lookup (hash_token a.auth token) w.repo.snap.sessions ≡ none
      → serve a env req route w ≡ some (Replies.unauthorized, w)
  unfolding serve require_role require_auth
  serve_unknown env req Route.login token w ne e h = absurd (ne refl)
  serve_unknown env req (for_user route) token w ne e h =
      rw
        (
          e,
          require_auth,
          authenticate_missing a.auth token (bearer_token_given _ token e) env.auth_save
              env.auth_now w.repo h,
        )
        refl
  serve_unknown env req (for_admin route) token w ne e h =
      rw
        (
          e,
          require_auth,
          authenticate_missing a.auth token (bearer_token_given _ token e) env.auth_save
              env.auth_now w.repo h,
        )
        refl

  -- After a logout over the API that reports success, every later request with the same header, to
  -- any route but the login and at any time, is refused as unauthorized, with nothing changed.
  pub serve-after_logout :
      (env env' : Env) (req req' : Request) (route : Route) (w w' : World F G)
      → serve a env req (for_user UserRoute.logout) w ≡ some (write_json 200 status_ok, w')
      → req'.header (codes "Authorization") ≡ req.header (codes "Authorization")
      → route ≢ Route.login
      → serve a env' req' route w' ≡ some (Replies.unauthorized, w')
  unfolding serve handle_user
  serve-after_logout env env' req req' route w w' h same ne =
      elim (require_auth-cases a env req (handle_user a env req UserRoute.logout) w) [
        | inl away ↦ absurd (not-TurnedAway env req w w' _ away h)
        | inr (p, shown, e) ↦
            serve_unknown env' req' route p.token w' ne (ap bearer_token same ∙ shown.bearer) (
              handle_logout-sessions env p w w' (bearer_token_given _ p.token shown.bearer)
                (some-injective _ _ (sym e ∙ h)))
      ]

-- ===== src/Http/Access.antt =====
-- Who gets through to a handler, and what a request that does not get through leaves.
use nusantara_panel.Base.{
  ltb, subst, ap, ◌≢◌, ◌≡◌, ◌⊎◌, refl, ◌∙◌, Text, codes, [], some, Option-cases, Result-cases,
  Bool-cases, inl, inr, Result, ok, err, text_eq, text_eq_iff, Unicode, arith,
}
use nusantara_panel.Store.{User, role_admin}
use nusantara_panel.Auth
use nusantara_panel.Auth.{hash_token, authenticate}
use nusantara_panel.Auth.Passwords.{Vouched, authenticate-Vouched}
use nusantara_panel.Http.{
  Time, Outcome, Repository, Request, Response, World, Env, Api, Reply, bearer_token, write_error,
}
use nusantara_panel.Store.FileDb.Methods.{get_session_by_token_hash}
use nusantara_panel.Base.Table.{lookup}
use nusantara_panel.Auth.Sessions.{delete_session-snap}
use nusantara_panel.Http.Replies.{unauthorized}
use nusantara_panel.Http.Accounts.{
  handle_login, authenticated, Principal, require_auth, require_role, with_role,
}
use nusantara_panel.Http.Routes.{Route, for_user, for_admin, handle_user, handle_admin, serve}

module _ (s : Auth.Service) (o : Outcome) (now : Time) (token : Text) where
  -- A check of a token changes nothing but the stored sessions.
  authenticate-snap :
      (r : Repository)
      → (authenticate s o now token r).1.snap
        ≡ record r.snap { sessions = (authenticate s o now token r).1.snap.sessions }
  unfolding authenticate get_session_by_token_hash
  authenticate-snap r = elim (Bool-cases (text_eq token [])) [
    | inl e ↦ rw e refl
    | inr e ↦ elim (Option-cases (lookup (hash_token s token) r.snap.sessions)) [
      | inl f ↦ rw (e, f, authenticate) refl
      | inr (session, f) ↦ elim (Bool-cases (ltb session.expires_at now)) [
        | inl late ↦
            rw (e, f, authenticate, late, delete_session-snap s.codec o (hash_token s token) r) refl
        | inr early ↦ rw (e, f, authenticate, early) refl
      ]
    ]
  ]

module _ ⦃u : Unicode⦄ {F G : Type 0} (a : Api F G) (env : Env) (req : Request) where
  -- What a principal that was let in has shown.
  pub record Shown (p : Principal) (w : World F G) : Type 0 where
    pub bearer : bearer_token (req.header (codes "Authorization")) ≡ some p.token
    pub vouched : Vouched a.auth env.auth_now p.token p.user w.repo w.repo

  -- A request that was turned away: its status, and that nothing but the repository may differ, by
  -- the deletion of a session that has run out.
  pub record TurnedAway (w : World F G) (reply : Reply F G) : Type 0 where
    pub response : Response
    pub refused : (response ≡ unauthorized) ⊎ (response ≡ write_error 403 (codes "forbidden"))
    pub next : World F G
    pub replied : reply ≡ some (response, next)
    pub beside : next ≡ record w { repo = next.repo }
    pub kept : next.repo.snap ≡ record w.repo.snap { sessions = next.repo.snap.sessions }

  authenticated-err :
      (token : Text) (next : Principal → World F G → Reply F G) (w : World F G)
      (p : Result Auth.Error User × Repository) (cause : Auth.Error)
      → p.0 ≡ err cause
      → authenticated a env token next w p ≡ some (unauthorized, record w { repo = p.1 })
  authenticated-err token next w (ok user, r) cause h = cc
  authenticated-err token next w (err e, r) cause h = refl

  authenticated-ok :
      (token : Text) (next : Principal → World F G → Reply F G) (w : World F G)
      (p : Result Auth.Error User × Repository) (user : User)
      → p.0 ≡ ok user
      → p.1 ≡ w.repo
      → authenticated a env token next w p ≡ next (record { user = user; token = token }) w
  authenticated-ok token next w (ok user', r) user h same = ground arith
  authenticated-ok token next w (err e, r) user h same = cc

  Vouched-of_accepted :
      (token : Text) (user : User) (w : World F G)
      → (authenticate a.auth env.auth_save env.auth_now token w.repo).0 ≡ ok user
      → Vouched a.auth env.auth_now token user w.repo w.repo
        × ((authenticate a.auth env.auth_save env.auth_now token w.repo).1 ≡ w.repo)
  Vouched-of_accepted token user w f =
      let after = (authenticate a.auth env.auth_save env.auth_now token w.repo).1 in
      let v =
        authenticate-Vouched a.auth env.auth_save env.auth_now token user w.repo after
          (ap (λ x. (x, after)) f) in
      (subst (λ r. Vouched a.auth env.auth_now token user w.repo r) v.unchanged v, v.unchanged)

  require_auth_ok :
      (token : Text) (user : User) (next : Principal → World F G → Reply F G) (w : World F G)
      → bearer_token (req.header (codes "Authorization")) ≡ some token
      → (authenticate a.auth env.auth_save env.auth_now token w.repo).0 ≡ ok user
      → (authenticate a.auth env.auth_save env.auth_now token w.repo).1 ≡ w.repo
      → require_auth a env next req w ≡ next (record { user = user; token = token }) w
  unfolding require_auth
  require_auth_ok token user next w e f same =
      rw (e, require_auth)
        (authenticated-ok token next w (authenticate a.auth env.auth_save env.auth_now token w.repo)
          user f same)

  pub require_auth-cases :
      (next : Principal → World F G → Reply F G) (w : World F G)
      → TurnedAway w (require_auth a env next req w)
        ⊎ ((p : Principal) × Shown p w × (require_auth a env next req w ≡ next p w))
  unfolding require_auth
  require_auth-cases next w =
      elim (Option-cases (bearer_token (req.header (codes "Authorization")))) [
        | inl e ↦ inl (record {
          response = unauthorized;
          refused = inl refl;
          next = w;
          replied = rw (e, require_auth) refl;
          beside = refl;
          kept = refl;
        })
        | inr (token, e) ↦
            let checked = authenticate a.auth env.auth_save env.auth_now token w.repo in
            elim (Result-cases checked.0) [
              | inr (cause, f) ↦ inl (record {
                response = unauthorized;
                refused = inl refl;
                next = record w { repo = checked.1 };
                replied = rw (e, require_auth) (authenticated-err token next w checked cause f);
                beside = refl;
                kept = authenticate-snap a.auth env.auth_save env.auth_now token w.repo;
              })
              | inl (user, f) ↦
                  let vouched = Vouched-of_accepted token user w f in
                  inr (
                    record { user = user; token = token },
                    record { bearer = e; vouched = vouched.0 },
                    require_auth_ok token user next w e f vouched.1,
                  )
            ]
      ]

  TurnedAway-of_role :
      (p : Principal) (w : World F G)
      → Shown p w
      → (reply : Reply F G) → reply ≡ some (write_error 403 (codes "forbidden"), w)
      → TurnedAway w reply
  TurnedAway-of_role p w shown reply h = record {
    response = write_error 403 (codes "forbidden");
    refused = inr refl;
    next = w;
    replied = h;
    beside = refl;
    kept = refl;
  }

  require_role-cases :
      (role : Text) (next : Principal → World F G → Reply F G) (w : World F G)
      → TurnedAway w (require_role a env role next req w)
        ⊎ ((p : Principal) × Shown p w
            × (p.user.role ≡ role)
            × (require_role a env role next req w ≡ next p w))
  unfolding require_role with_role
  require_role-cases role next w = elim (require_auth-cases (with_role a env role next) w) [
    | inl away ↦ inl away
    | inr (p, shown, e) ↦ elim (Bool-cases (text_eq p.user.role role)) [
      | inl same ↦ inr (p, shown, (text_eq_iff p.user.role role).0 same, e ∙ rw same refl)
      | inr other ↦ inl (TurnedAway-of_role p w shown _ (e ∙ rw other refl))
    ]
  ]

  -- What a route asks of a principal.
  abbrev pub MayUse : Route → Principal → Type 0
  MayUse Route.login p = Unit
  MayUse (for_user route) p = Unit
  MayUse (for_admin route) p = p.user.role ≡ role_admin

  -- What a route does for a principal that was let in.
  abbrev pub handle : Route → Principal → World F G → Reply F G
  handle Route.login p w = some (handle_login a env req w)
  handle (for_user route) p w = handle_user a env req route p w
  handle (for_admin route) p w = handle_admin a env req route p w

  -- A request to any route but the login is turned away, with nothing changed but the stored
  -- sessions; or its bearer token stands for a stored session that has not run out, of a stored,
  -- active user, who is an administrator where the route is one for administrators, and the handler
  -- of the route acts for that user.
  pub serve-cases :
      (route : Route) (w : World F G)
      → route ≢ Route.login
      → TurnedAway w (serve a env req route w)
        ⊎ ((p : Principal) × Shown p w
            × MayUse route p
            × (serve a env req route w ≡ handle route p w))
  unfolding serve
  serve-cases Route.login w h = absurd (h refl)
  serve-cases (for_user route) w h = elim (require_auth-cases (handle_user a env req route) w) [
    | inl away ↦ inl away
    | inr (p, shown, e) ↦ inr (p, shown, tt, e)
  ]
  serve-cases (for_admin route) w h =
      elim (require_role-cases role_admin (handle_admin a env req route) w) [
        | inl away ↦ inl away
        | inr (p, shown, role, e) ↦ inr (p, shown, role, e)
      ]

-- ===== src/Http/Lockout.antt =====
-- The login handler and its limiter together.
use nusantara_panel.Base.{
  subst, ltb→lt, ℕ, ◌≤◌, ◌<◌, ◌+◌, ◌≡◌, refl, sym, ap, ◌∙◌, Text, codes, List, [], ◌∷◌, Bool, true,
  false, none, some, Result, ok, err, arith, Unicode, ltb, Bool-cases, inl, inr, Option-cases, ◌-◌,
  le→leb, lt→ltb,
}
use nusantara_panel.Base.Table.{lookup-nil, lookup, lookup-delete_self}
use nusantara_panel.Auth
use nusantara_panel.Auth.{invalid_credentials, login}
use nusantara_panel.RateLimit.{LoginLimiter, allow, register_failure, current}
use nusantara_panel.RateLimit.Lockout.{
  allow_agree, failures, streak, allow-failures, register_entry, failures_config,
}
use nusantara_panel.Store.FileDb.Snapshot.{Repository}
use nusantara_panel.Http.{
  User, Request, World, Env, Api, LoginRequest, decode_json, login_limit_key, write_error,
}
use nusantara_panel.Http.Accounts.{handle_login, login_allowed, logged_in}

module _ (key : Text) where
  allow_config :
      (now : ℕ) (l : LoginLimiter)
      → ((allow key now l).1.max_fail ≡ l.max_fail) × ((allow key now l).1.window ≡ l.window)
  unfolding allow
  allow_config now l = elim (Option-cases (lookup key l.entries)) [
    | inl e ↦ rw (e, allow) (refl, refl)
    | inr (old, e) ↦ elim (Bool-cases (ltb l.window (now - old.last_attempt))) [
      | inl late ↦ rw (e, allow, late) (refl, refl)
      | inr early ↦ rw (e, allow, early) (refl, refl)
    ]
  ]

  -- The test of the limiter just before a failure does not change what the failure counts on.
  current-allow :
      (earlier now : ℕ) (l : LoginLimiter)
      → earlier ≤ now
      → current l.window now (lookup key (allow key earlier l).1.entries)
        ≡ current l.window now (lookup key l.entries)
  unfolding allow
  current-allow earlier now l h = elim (Option-cases (lookup key l.entries)) [
    | inl e ↦ rw (e, allow) (rw e refl)
    | inr (old, e) ↦ elim (Bool-cases (ltb l.window (earlier - old.last_attempt))) [
      | inl late ↦
          rw (e, allow, late, lookup-delete_self key l.entries)
            (ground (arith, ltb→lt l.window (earlier - old.last_attempt) late))
      | inr early ↦ rw (e, allow, early) (rw e refl)
    ]
  ]

-- A limiter as good as the one in which the failures of the key at some times, the latest first, were
-- counted.
record Tracks (key : Text) (max_fail window : ℕ) (ts : List ℕ) (l : LoginLimiter) : Type 0 where
  pub entry :
      lookup key l.entries
      ≡ lookup key
          (failures key ts (record { max_fail = max_fail; window = window; entries = [] })).entries
  pub same_max : l.max_fail ≡ max_fail
  pub same_window : l.window ≡ window

Tracks-failure :
    (key : Text) (max_fail window : ℕ) (ts : List ℕ) (earlier now : ℕ) (l : LoginLimiter)
    → earlier ≤ now
    → Tracks key max_fail window ts l
    → Tracks key max_fail window (now ∷ ts) (register_failure key now (allow key earlier l).1)
unfolding register_failure
Tracks-failure key max_fail window ts earlier now l h k =
    let l₀ : LoginLimiter = record { max_fail = max_fail; window = window; entries = [] } in
    let m = (allow key earlier l).1 in
    let (same_max, same_window) = allow_config key earlier l in
    let (max₀, window₀) = failures_config key ts l₀ in
    record {
      entry =
          register_entry key now m
          ∙ rw
              (
                same_max,
                same_window,
                current-allow key earlier now l h,
                k.entry,
                k.same_max,
                k.same_window,
              )
              (rw (register_entry key now (failures key ts l₀), max₀, window₀) refl);
      same_max = same_max ∙ k.same_max;
      same_window = same_window ∙ k.same_window;
    }

module _ ⦃u : Unicode⦄ {F G : Type 0} (a : Api F G) where
  logged_in-failed :
      (env : Env) (key : Text) (req : LoginRequest) (w w' : World F G)
      (p : Result Auth.Error (Text × ℕ × User) × Repository)
      → logged_in a env key req w p ≡ (write_error 401 (codes "invalid credentials"), w')
      → w'.limiter ≡ register_failure key env.fail_now w.limiter
  unfolding logged_in
  logged_in-failed env key req w w' (ok (token, expires_at, user), r) h = ground arith
  logged_in-failed env key req w w' (err invalid_credentials, r) h = ap (λ p. p.1.limiter) (sym h)
  logged_in-failed env key req w w' (err Auth.unauthorized, r) h = ground arith
  logged_in-failed env key req w w' (err Auth.invalid_password, r) h = ground arith
  logged_in-failed env key req w w' (err Auth.bootstrap_password_empty, r) h = ground arith
  logged_in-failed env key req w w' (err (Auth.password_error e), r) h = ground arith
  logged_in-failed env key req w w' (err (Auth.random_fails e), r) h = ground arith
  logged_in-failed env key req w w' (err (Auth.store_error e), r) h = ground arith

  login_allowed-failed :
      (env : Env) (key : Text) (req : LoginRequest) (w w' : World F G) (p : Bool × LoginLimiter)
      → login_allowed a env key req w p ≡ (write_error 401 (codes "invalid credentials"), w')
      → w'.limiter ≡ register_failure key env.fail_now p.1
  unfolding login_allowed
  login_allowed-failed env key req w w' (false, l) h = ground arith
  login_allowed-failed env key req w w' (true, l) h =
      logged_in-failed env key req (record w { limiter = l }) w' _ h

  login_allowed-refused :
      (env : Env) (key : Text) (req : LoginRequest) (w : World F G) (p : Bool × LoginLimiter)
      → p.0 ≡ false
      → login_allowed a env key req w p
        ≡ (write_error 429 (codes "too many login attempts"), record w { limiter = p.1 })
  unfolding login_allowed
  login_allowed-refused env key req w (false, l) h = refl
  login_allowed-refused env key req w (true, l) h = cc

  handle_login_decoded :
      (env : Env) (req : Request) (body : LoginRequest) (w : World F G)
      → decode_json a.decoders.login req ≡ some body
      → handle_login a env req w
        ≡ login_allowed a env
            (login_limit_key a req body.username)
            body
            w
            (allow (login_limit_key a req body.username) env.limit_now w.limiter)
  unfolding handle_login
  handle_login_decoded env req body w e = rw (e, handle_login) refl

  -- A history of a world in which logins under a key failed at some times, the latest first. Between
  -- them anything may happen that leaves the count of the key alone.
  pub data Failing (key : Text) (max_fail window : ℕ) : List ℕ → World F G → Type 0 where
    none_yet :
        (w : World F G)
        → lookup key w.limiter.entries ≡ none
        → w.limiter.max_fail ≡ max_fail
        → w.limiter.window ≡ window
        → Failing key max_fail window [] w
    failed :
        {ts : List ℕ} {w w' : World F G}
        → Failing key max_fail window ts w
        → (env : Env) (req : Request) (body : LoginRequest)
        → decode_json a.decoders.login req ≡ some body
        → login_limit_key a req body.username ≡ key
        → env.limit_now ≤ env.fail_now
        → handle_login a env req w ≡ (write_error 401 (codes "invalid credentials"), w')
        → Failing key max_fail window (env.fail_now ∷ ts) w'
    meanwhile :
        {ts : List ℕ} {w : World F G}
        → Failing key max_fail window ts w
        → (w' : World F G) → lookup key w'.limiter.entries ≡ lookup key w.limiter.entries
        → w'.limiter.max_fail ≡ w.limiter.max_fail
        → w'.limiter.window ≡ w.limiter.window
        → Failing key max_fail window ts w'

  Failing-Tracks :
      (key : Text) (max_fail window : ℕ) (ts : List ℕ) (w : World F G)
      → Failing key max_fail window ts w
      → Tracks key max_fail window ts w.limiter
  Failing-Tracks key max_fail window ts w (none_yet _ e m n) = record {
    entry = e ∙ sym (lookup-nil key);
    same_max = m;
    same_window = n;
  }
  Failing-Tracks key max_fail window ts w (failed {ts = before} {w = w₀} h env req body d k le e) =
      let t = Failing-Tracks key max_fail window before w₀ h in
      let limiter =
        login_allowed-failed env (login_limit_key a req body.username) body w₀ w _
          (sym (handle_login_decoded env req body w₀ d) ∙ e) in
      subst (λ l. Tracks key max_fail window (env.fail_now ∷ before) l)
        (ap (λ k'. register_failure k' env.fail_now (allow k' env.limit_now w₀.limiter).1) (sym k)
          ∙ sym limiter)
        (Tracks-failure key max_fail window before env.limit_now env.fail_now w₀.limiter le t)
  Failing-Tracks key max_fail window ts w (meanwhile {w = w₀} h _ e m n) =
      let t = Failing-Tracks key max_fail window ts w₀ h in
      record { entry = e ∙ t.entry; same_max = m ∙ t.same_max; same_window = n ∙ t.same_window }

  -- Once at least as many logins under a key have failed as the limiter allows, one within the
  -- window of the next, a login under the key within the window of the last failure is refused as one
  -- too many, even with the right password, and the repository is not asked.
  pub handle_login_locked :
      (key : Text) (max_fail window t : ℕ) (ts : List ℕ) (w : World F G) (env : Env) (req : Request)
      (body : LoginRequest)
      → Failing key max_fail window (t ∷ ts) w
      → max_fail ≤ streak window (t ∷ ts)
      → env.limit_now < t + window
      → decode_json a.decoders.login req ≡ some body
      → login_limit_key a req body.username ≡ key
      → handle_login a env req w ≡ (
        write_error 429 (codes "too many login attempts"),
        record w { limiter = (allow key env.limit_now w.limiter).1 },
      )
  handle_login_locked key max_fail window t ts w env req body h many soon d k =
      let l₀ : LoginLimiter = record { max_fail = max_fail; window = window; entries = [] } in
      let tracked = Failing-Tracks key max_fail window (t ∷ ts) w h in
      let (max₀, window₀) = failures_config key (t ∷ ts) l₀ in
      let shut : (allow key env.limit_now w.limiter).0 ≡ false =
        allow_agree key env.limit_now w.limiter (failures key (t ∷ ts) l₀) tracked.entry
          (tracked.same_window ∙ sym window₀)
        ∙ allow-failures key l₀ (lookup-nil key) env.limit_now t ts
        ∙ rw (le→leb max_fail (streak window (t ∷ ts)) many, lt→ltb env.limit_now (t + window) soon)
            refl in
      rw (handle_login_decoded env req body w d, k)
        (login_allowed-refused env key body w (allow key env.limit_now w.limiter) shut)

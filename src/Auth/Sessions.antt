-- ===== src/Auth/Sessions.antt =====
-- Tokens: a login opens a session, and the session ends by its time or by a logout.
use nusantara_panel.Base.{
  ltb→lt, if◌then◌else◌, ap, to_lower, Option-cases, ◌≤◌, ◌<◌, Text, [], ◌≡◌, ◌≢◌, sym, ◌∙◌, true,
  Result, ok, err, Result-cases, Bool-cases, inl, inr, text_eq-false, ltb, arith, Unicode,
  trim_space, some, none,
}
use nusantara_panel.Base.Table.{insert, delete, lookup, lookup-insert_self, lookup-delete_self}
use nusantara_panel.Store
use nusantara_panel.Store.{User, Session, Time, not_found}
use nusantara_panel.Store.FileDb.Snapshot.{Codec, Outcome, Repository}
use nusantara_panel.Store.FileDb.Methods.{
  get_user_by_username, get_user_by_id, create_session, get_session_by_token_hash,
  delete_session_by_token_hash,
}
use nusantara_panel.Store.FileDb.Invariant.{IsValid, save-snap}
use nusantara_panel.Password.{verify}
use nusantara_panel.Auth.{time_add, unauthorized, Service, hash_token, login, authenticate, logout}

pub get_user_by_id_found :
    (id : Text) (user : User) (r : Repository)
    → lookup id r.snap.users ≡ some user
    → get_user_by_id id r ≡ ok user
unfolding get_user_by_id
get_user_by_id_found id user r e = ground arith

get_session_found :
    (hash : Text) (session : Session) (r : Repository)
    → lookup hash r.snap.sessions ≡ some session
    → get_session_by_token_hash hash r ≡ ok session
unfolding get_session_by_token_hash
get_session_found hash session r e = ground arith

get_session_missing :
    (hash : Text) (r : Repository)
    → lookup hash r.snap.sessions ≡ none
    → get_session_by_token_hash hash r ≡ err not_found
unfolding get_session_by_token_hash
get_session_missing hash r e = ground arith

create_session-snap :
    (codec : Codec) (o : Outcome) (session : Session) (r : Repository)
    → (create_session codec o session r).1.snap
      ≡ record r.snap { sessions = insert session.token_hash session r.snap.sessions }
unfolding create_session
create_session-snap codec o session r = save-snap codec o (record r { snap = _ })

pub delete_session-snap :
    (codec : Codec) (o : Outcome) (hash : Text) (r : Repository)
    → (delete_session_by_token_hash codec o hash r).1.snap
      ≡ record r.snap { sessions = delete hash r.snap.sessions }
unfolding delete_session_by_token_hash
delete_session-snap codec o hash r = save-snap codec o (record r { snap = _ })

-- A user that is found by a name stands under its own identifier.
get_user_by_username-id :
    ⦃u : Unicode⦄
    → (name : Text) (user : User) (r : Repository) → IsValid r.snap
    → get_user_by_username name r ≡ ok user
    → lookup user.id r.snap.users ≡ some user
unfolding get_user_by_username
get_user_by_username-id name user r v h =
    elim (Option-cases (lookup (to_lower name) r.snap.username_index)) [
      | inl e ↦ absurd (cc (rw (e, get_user_by_username) at h))
      | inr (id, e) ↦
          let (w, p, q) = v.users_indexed.backed _ id e in ground (arith, v.users_by_id id w)
    ]

module _ ⦃u : Unicode⦄ (s : Service) where
  -- What a successful login has found and done.
  pub record LoggedIn (o : Outcome) (now now' : Time) (raw : Result Text Text)
      (username plain : Text) (r : Repository) (token : Text) (expires_at : Time) (user : User)
      (r' : Repository) : Type 0 where
    pub account : User
    pub found : get_user_by_username (trim_space username) r ≡ ok account
    pub active : account.is_active ≡ true
    pub verified : verify s.bcrypt plain account.password_hash ≡ true
    pub random : raw ≡ ok token
    pub expiry : expires_at ≡ time_add now s.token_ttl
    pub blanked : user ≡ record account { password_hash = [] }
    pub opened :
        create_session s.codec o
          (record {
            token_hash = hash_token s token;
            user_id = account.id;
            expires_at = time_add now s.token_ttl;
            created_at = now';
          })
          r
        ≡ (ok tt, r')

  pub login-LoggedIn :
      (o : Outcome) (now now' : Time) (raw : Result Text Text) (username plain : Text)
      (r : Repository) (token : Text) (expires_at : Time) (user : User) (r' : Repository)
      → login s o now now' raw username plain r ≡ (ok (token, expires_at, user), r')
      → LoggedIn o now now' raw username plain r token expires_at user r'
  unfolding login
  login-LoggedIn o now now' raw username plain r token expires_at user r' h =
      elim (Result-cases (get_user_by_username (trim_space username) r)) [
        | inr (e, missing) ↦ absurd (cc (rw (missing, login) at h))
        | inl (account, found) ↦ record {
          account = account;
          found = found;
          active = ground arith;
          verified = ground arith;
          random = ground arith;
          expiry = ground arith;
          blanked = ground arith;
          opened = ground arith;
        }
      ]

-- The error of a lookup by name is always that nothing is there.
pub get_user_by_username-err :
    ⦃u : Unicode⦄
    → (name : Text) (e : Store.Error) (r : Repository) → get_user_by_username name r ≡ err e
    → e ≡ not_found
unfolding get_user_by_username
get_user_by_username-err name e r h = ground arith

module _ (s : Service) (token : Text) (given : token ≢ []) where
  abbrev pub key : Text
  key = hash_token s token

  authenticate_found :
      (o : Outcome) (now : Time) (session : Session) (account : User) (r : Repository)
      → lookup key r.snap.sessions ≡ some session
      → lookup session.user_id r.snap.users ≡ some account
      → account.is_active ≡ true
      → now ≤ session.expires_at
      → authenticate s o now token r ≡ (ok (record account { password_hash = [] }), r)
  unfolding authenticate
  authenticate_found o now session account r p q active h = rw (text_eq-false token [] given) (
      ground (
        arith,
        get_session_found key session r p,
        get_user_by_id_found session.user_id account r q,
      ))

  authenticate_expired :
      (o : Outcome) (now : Time) (session : Session) (r : Repository)
      → lookup key r.snap.sessions ≡ some session
      → session.expires_at < now
      → authenticate s o now token r
        ≡ (err unauthorized, (delete_session_by_token_hash s.codec o key r).1)
  unfolding authenticate
  authenticate_expired o now session r p h =
      rw (text_eq-false token [] given) (ground (arith, get_session_found key session r p))

  pub authenticate_missing :
      (o : Outcome) (now : Time) (r : Repository)
      → lookup key r.snap.sessions ≡ none
      → authenticate s o now token r ≡ (err unauthorized, r)
  unfolding authenticate
  authenticate_missing o now r p =
      rw (text_eq-false token [] given) (ground (arith, get_session_missing key r p))

  pub logout-eq :
      (o : Outcome) (r : Repository)
      → (logout s o token r).1 ≡ (delete_session_by_token_hash s.codec o key r).1
  unfolding logout
  logout-eq o r = rw (text_eq-false token [] given) (ground arith)

  -- After a logout, whether or not its save succeeds, the token is refused at any time, and the
  -- refusal changes nothing.
  pub authenticate-logout :
      (o o' : Outcome) (now : Time) (r : Repository)
      → authenticate s o' now token (logout s o token r).1
        ≡ (err unauthorized, (logout s o token r).1)
  authenticate-logout o o' now r = authenticate_missing o' now (logout s o token r).1 (
      rw (logout-eq o r, delete_session-snap s.codec o key r)
        (lookup-delete_self key r.snap.sessions))

module _ ⦃u : Unicode⦄ (s : Service) where
  login_opened :
      (o : Outcome) (now now' : Time) (raw : Result Text Text) (username plain : Text)
      (r : Repository) (token : Text) (expires_at : Time) (user : User) (r' : Repository)
      → (l : LoggedIn s o now now' raw username plain r token expires_at user r')
      → r'.snap ≡ record r.snap {
        sessions =
            insert
              (hash_token s token)
              (record {
                token_hash = hash_token s token;
                user_id = l.account.id;
                expires_at = time_add now s.token_ttl;
                created_at = now';
              })
              r.snap.sessions;
      }
  login_opened o now now' raw username plain r token expires_at user r' l =
      ap (λ p. p.1.snap) (sym l.opened) ∙ create_session-snap s.codec o _ r

  -- The token of a successful login on a valid state, if it is not empty, stands up to its expiry
  -- for the user of the login, without the password's hash, and the check changes nothing; after the
  -- expiry it is refused, and its session is deleted. The expiry is the life of a token after the
  -- login.
  pub authenticate-login :
      (o o' : Outcome) (now now' later : Time) (raw : Result Text Text) (username plain : Text)
      (r : Repository) (token : Text) (expires_at : Time) (user : User) (r' : Repository)
      → IsValid r.snap
      → token ≢ []
      → login s o now now' raw username plain r ≡ (ok (token, expires_at, user), r')
      → (expires_at ≡ time_add now s.token_ttl)
        × (authenticate s o' later token r' ≡ (
            if ltb expires_at later
            then (
              err unauthorized,
              (delete_session_by_token_hash s.codec o' (hash_token s token) r').1,
            )
            else (ok user, r')))
  authenticate-login o o' now now' later raw username plain r token expires_at user r' v given h =
      let l = login-LoggedIn s o now now' raw username plain r token expires_at user r' h in
      let after = login_opened o now now' raw username plain r token expires_at user r' l in
      let account = get_user_by_username-id (trim_space username) l.account r v l.found in
      let opened : Session = record {
        token_hash = hash_token s token;
        user_id = l.account.id;
        expires_at = time_add now s.token_ttl;
        created_at = now';
      } in
      let session : lookup (hash_token s token) r'.snap.sessions ≡ some opened =
        rw after (lookup-insert_self (hash_token s token) opened r.snap.sessions) in
      let stored : lookup l.account.id r'.snap.users ≡ some l.account = rw after account in
      (
        l.expiry,
        elim (Bool-cases (ltb expires_at later)) [
          | inl late ↦ rw late (
              authenticate_expired s token given o' later opened r' session
                (omega (arith, l.expiry, ltb→lt expires_at later late)))
          | inr early ↦
              rw (early, l.blanked)
                (authenticate_found s token given o' later opened l.account r' session stored
                  l.active (ground (arith, l.expiry)))
        ],
      )

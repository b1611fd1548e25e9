-- ===== src/Auth/Passwords.antt =====
-- Passwords: what a login, a change of the password and the first administrator rest on.
use nusantara_panel.Store.FileDb.Accounts.{
  get_user_by_username_found, create_user-snap, create_user_taken,
}
use nusantara_panel.Base.{
  ◌≤◌, Text, [], ◌≡◌, refl, sym, ◌∙◌, ap, true, ◌&&◌, Result, ok, err, Result-cases, Bool-cases,
  Option-cases, inl, inr, arith, Unicode, trim_space, to_lower, some,
}
use nusantara_panel.Base.Table.{lookup, insert, lookup-insert_self}
use nusantara_panel.Store.{User, Session, Time}
use nusantara_panel.Store.FileDb.Snapshot.{Outcome, Repository}
use nusantara_panel.Store.FileDb.Methods.{
  create_user, get_user_by_username, get_user_by_id, update_user_password,
  get_session_by_token_hash, count_users,
}
use nusantara_panel.Store.FileDb.Invariant.{IsValid, save-snap}
use nusantara_panel.Password.{hash, verify}
use nusantara_panel.Password.Verify.{verify-hash}
use nusantara_panel.Auth.{
  role_admin, ensure_bootstrap_admin, invalid_credentials, Service, hash_token, login, authenticate,
  change_password,
}
use nusantara_panel.Auth.Sessions.{get_user_by_username-err}

-- What stands behind a token that `authenticate` accepts.
pub record Vouched (s : Service) (now : Time) (token : Text) (user : User) (r r' : Repository)
    : Type 0 where
  pub session : Session
  pub account : User
  pub opened : lookup (hash_token s token) r.snap.sessions ≡ some session
  pub current : now ≤ session.expires_at
  pub known : lookup session.user_id r.snap.users ≡ some account
  pub active : account.is_active ≡ true
  pub blanked : user ≡ record account { password_hash = [] }
  pub unchanged : r' ≡ r

-- A token that is accepted belongs to a stored session that has not run out, and the user that is
-- handed out is the stored, active user of the session without the password's hash; the repository
-- stays as it is.
pub authenticate-Vouched :
    (s : Service) (o : Outcome) (now : Time) (token : Text) (user : User) (r r' : Repository)
    → authenticate s o now token r ≡ (ok user, r')
    → Vouched s now token user r r'
unfolding authenticate get_session_by_token_hash get_user_by_id
authenticate-Vouched s o now token user r r' h =
    elim (Option-cases (lookup (hash_token s token) r.snap.sessions)) [
      | inl e ↦ ground arith
      | inr (session, e) ↦ elim (Option-cases (lookup session.user_id r.snap.users)) [
        | inl f ↦ ground arith
        | inr (account, f) ↦ record {
          session = session;
          account = account;
          opened = e;
          current = ground arith;
          known = f;
          active = ground arith;
          blanked = ground arith;
          unchanged = ground arith;
        }
      ]
    ]

module _ ⦃u : Unicode⦄ (s : Service) where
  -- A name is good for a login with a password if an active user of that name has a hash that the
  -- password fits.
  pub record IsGood (username plain : Text) (r : Repository) : Type 0 where
    pub account : User
    pub found : get_user_by_username (trim_space username) r ≡ ok account
    pub active : account.is_active ≡ true
    pub verified : verify s.bcrypt plain account.password_hash ≡ true

  -- An unknown name, an inactive user and a wrong password are refused alike, with one error and with
  -- nothing changed.
  pub login_refused :
      (o : Outcome) (now now' : Time) (raw : Result Text Text) (username plain : Text)
      (r : Repository)
      → ¬ IsGood username plain r
      → login s o now now' raw username plain r ≡ (err invalid_credentials, r)
  unfolding login
  login_refused o now now' raw username plain r bad =
      elim (Result-cases (get_user_by_username (trim_space username) r)) [
        | inr (e, missing) ↦
            ground (arith, get_user_by_username-err (trim_space username) e r missing)
        | inl (account, found) ↦
            elim (Bool-cases (account.is_active && verify s.bcrypt plain account.password_hash)) [
              | inl good ↦ absurd (
                  bad (record {
                    account = account;
                    found = found;
                    active = ground arith;
                    verified = ground arith;
                  }))
              | inr wrong ↦ ground arith
            ]
      ]

  -- A change of the password that reports success has checked the old password against the stored
  -- hash, and has stored a hash that the new password fits; the rest of the account, and every other
  -- account, is as before.
  pub record Changed (now : Time) (id current next : Text) (r r' : Repository) : Type 0 where
    pub account : User
    pub encoded : Text
    pub known : lookup id r.snap.users ≡ some account
    pub checked : verify s.bcrypt current account.password_hash ≡ true
    pub fits : verify s.bcrypt next encoded ≡ true
    pub written : r'.snap ≡ record r.snap {
      users = insert id (record account { password_hash = encoded; updated_at = now }) r.snap.users;
    }

  update_user_password-snap :
      (o : Outcome) (id encoded : Text) (now : Time) (account : User) (r : Repository)
      → lookup id r.snap.users ≡ some account
      → (update_user_password s.codec o id encoded now r).1.snap ≡ record r.snap {
        users =
            insert id (record account { password_hash = encoded; updated_at = now }) r.snap.users;
      }
  unfolding update_user_password
  update_user_password-snap o id encoded now account r e =
      rw (e, update_user_password) (save-snap s.codec o (record r { snap = _ }))

  pub change_password-Changed :
      (o : Outcome) (now : Time) (id current next : Text) (r r' : Repository)
      → IsValid r.snap
      → change_password s o now id current next r ≡ (ok tt, r')
      → Changed now id current next r r'
  unfolding change_password get_user_by_id
  change_password-Changed o now id current next r r' v h =
      elim (Option-cases (lookup id r.snap.users)) [
        | inl e ↦ ground arith
        | inr (account, e) ↦ elim (Result-cases (hash s.bcrypt next)) [
          | inr (cause, f) ↦ ground arith
          | inl (encoded, f) ↦ record {
            account = account;
            encoded = encoded;
            known = e;
            checked = ground arith;
            fits = verify-hash s.bcrypt next encoded f;
            written =
                let same : (update_user_password s.codec o id encoded now r).1 ≡ r' =
                  ground (arith, v.users_by_id id account e) in
                ap (λ x. x.snap) (sym same)
                ∙ update_user_password-snap o id encoded now account r e;
          }
        ]
      ]

  abbrev first_admin : Time → Text → Text → Text → User
  first_admin now id username encoded = record {
    id = id;
    username = trim_space username;
    password_hash = encoded;
    role = role_admin;
    is_active = true;
    created_at = now;
    updated_at = now;
  }

  bootstrap_admin-IsGood :
      (o : Outcome) (now : Time) (id username plain encoded : Text) (r r' : Repository)
      → hash s.bcrypt plain ≡ ok encoded
      → create_user s.codec o (first_admin now id username encoded) r ≡ (ok tt, r')
      → IsGood username plain r'
  bootstrap_admin-IsGood o now id username plain encoded r r' f h =
      let user = first_admin now id username encoded in
      elim (Option-cases (lookup (to_lower (trim_space username)) r.snap.username_index)) [
        | inr (old, taken) ↦ absurd (cc (create_user_taken s.codec o user r old taken))
        | inl vacant ↦
            let now' : r'.snap ≡ record r.snap {
              users = insert id user r.snap.users;
              username_index = insert (to_lower (trim_space username)) id r.snap.username_index;
            } =
              ap (λ p. p.1.snap) (sym h) ∙ create_user-snap s.codec o user r vacant in
            record {
              account = user;
              found =
                  get_user_by_username_found (trim_space username) id user r'
                    (rw now' (lookup-insert_self _ id r.snap.username_index))
                    (rw now' (lookup-insert_self id user r.snap.users));
              active = refl;
              verified = verify-hash s.bcrypt plain encoded f;
            }
      ]

  -- On a state with no users, a bootstrap that reports success leaves a user with which a login
  -- of the same name and password is good.
  pub ensure_bootstrap_admin-IsGood :
      (o : Outcome) (now : Time) (id : Result Text Text) (username plain : Text) (r r' : Repository)
      → count_users r ≡ 0
      → ensure_bootstrap_admin s o now id username plain r ≡ (ok tt, r')
      → IsGood username plain r'
  unfolding ensure_bootstrap_admin
  ensure_bootstrap_admin-IsGood o now (err cause) username plain r r' z h =
      elim (Result-cases (hash s.bcrypt plain)) [
        | inl (encoded, f) ↦ ground arith
        | inr (e, f) ↦ ground arith
      ]
  ensure_bootstrap_admin-IsGood o now (ok id) username plain r r' z h =
      elim (Result-cases (hash s.bcrypt plain)) [
        | inr (e, f) ↦ ground arith
        | inl (encoded, f) ↦
            bootstrap_admin-IsGood o now id username plain encoded r r' f (ground arith)
      ]

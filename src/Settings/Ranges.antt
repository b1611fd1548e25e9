-- ===== src/Settings/Ranges.antt =====
-- What the settings that are read can be.
use nusantara_panel.Base.{
  ◌>>=◌, false, Option, none, some, Bool-cases, ℕ, ℤ, pos, Text, codes, [], ◌∷◌, Bool, true, Result,
  ok, err, inl, inr, ◌≡◌, ◌≢◌, refl, atoi, Parsed, number, out_of_range, bad_syntax,
}
use nusantara_panel.Settings.{
  bool_or, parse_bool, number_from, given_bool, given_number, Config, Environment, Error, invalid,
  read_number, read_bool, load_from_env, is_at_least,
}

-- The numbers are in their ranges.
pub record IsInRange (c : Config) : Type 0 where
  pub shutdown_secs : is_at_least 1 c.shutdown_secs ≡ true
  pub token_ttl_hours : is_at_least 1 c.token_ttl_hours ≡ true
  pub update_log_lines : is_at_least 1 c.update_log_lines ≡ true
  pub update_cooldown : is_at_least 0 c.update_cooldown ≡ true

-- Good settings, or an error that quotes a variable that is set, and its value.
abbrev pub Loaded : Environment → Result Error Config → Type 0
Loaded env (ok c) = IsInRange c
Loaded env (err (invalid name v)) = (env name ≡ v) × (v ≢ [])

abbrev Read : Environment → ℕ → Result Error ℤ → Type 0
Read env least (ok n) = is_at_least least n ≡ true
Read env least (err (invalid name v)) = (env name ≡ v) × (v ≢ [])

abbrev Blamed : Environment → Result Error Bool → Type 0
Blamed env (ok b) = Unit
Blamed env (err (invalid name v)) = (env name ≡ v) × (v ≢ [])

number_from-Read :
    (env : Environment) (name v : Text) (least : ℕ) (p : Parsed)
    → env name ≡ v
    → v ≢ []
    → Read env least (number_from least (invalid name v) p)
number_from-Read env name v least (number n) e ne = elim (Bool-cases (is_at_least least n)) [
  | inl fits ↦ rw fits fits
  | inr small ↦ rw small (e, ne)
]
number_from-Read env name v least (out_of_range n) e ne = (e, ne)
number_from-Read env name v least bad_syntax e ne = (e, ne)

given_number-Read :
    (env : Environment) (name : Text) (least : ℕ) (fallback : ℤ) (v : Text)
    → is_at_least least fallback ≡ true
    → env name ≡ v
    → Read env least (given_number name least fallback v)
given_number-Read env name least fallback [] h e = h
given_number-Read env name least fallback (c ∷ v) h e =
    number_from-Read env name (c ∷ v) least (atoi (c ∷ v)) e (λ eq. cc eq)

bool_or-Blamed :
    (env : Environment) (name v : Text) (parsed : Option Bool)
    → env name ≡ v
    → v ≢ []
    → Blamed env (bool_or (invalid name v) parsed)
bool_or-Blamed env name v none e ne = (e, ne)
bool_or-Blamed env name v (some b) e ne = tt

given_bool-Blamed :
    (env : Environment) (name : Text) (fallback : Bool) (v : Text)
    → env name ≡ v
    → Blamed env (given_bool name fallback v)
given_bool-Blamed env name fallback [] e = tt
given_bool-Blamed env name fallback (c ∷ v) e =
    bool_or-Blamed env name (c ∷ v) (parse_bool (c ∷ v)) e (λ eq. cc eq)

read_number-Read :
    (env : Environment) (name : Text) (least : ℕ) (fallback : ℤ)
    → is_at_least least fallback ≡ true
    → Read env least (read_number env name least fallback)
unfolding read_number
read_number-Read env name least fallback h =
    given_number-Read env name least fallback (env name) h refl

read_bool-Blamed :
    (env : Environment) (name : Text) (fallback : Bool) → Blamed env (read_bool env name fallback)
unfolding read_bool
read_bool-Blamed env name fallback = given_bool-Blamed env name fallback (env name) refl

number_then :
    (env : Environment) (least : ℕ) (res : Result Error ℤ) (next : ℤ → Result Error Config)
    → Read env least res
    → ((n : ℤ) → is_at_least least n ≡ true → Loaded env (next n))
    → Loaded env (res >>= next)
number_then env least (ok n) next h k = k n h
number_then env least (err (invalid name v)) next h k = h

bool_then :
    (env : Environment) (res : Result Error Bool) (next : Bool → Result Error Config)
    → Blamed env res
    → ((b : Bool) → Loaded env (next b))
    → Loaded env (res >>= next)
bool_then env (ok b) next h k = k b
bool_then env (err (invalid name v)) next h k = h

-- The settings that are read have a time to shut down, a life of tokens and a number of log lines of
-- at least one, and a cooldown that is not negative; or else the error quotes a variable that is set,
-- with its value.
pub load_from_env-Loaded :
    (on_linux : Bool) (env : Environment) → Loaded env (load_from_env on_linux env)
unfolding load_from_env
load_from_env-Loaded on_linux env =
    number_then env 1 _ _ (read_number-Read env (codes "NUSANTARA_SHUTDOWN_SECS") 1 (pos 10) refl)
      (λ secs a.
        bool_then env _ _ (read_bool-Blamed env (codes "NUSANTARA_ALLOW_NON_UBUNTU") false)
          (λ allow.
            number_then env 1 _ _
              (read_number-Read env (codes "NUSANTARA_TOKEN_TTL_HOURS") 1 (pos 24) refl)
              (λ ttl b.
                bool_then env _ _
                  (read_bool-Blamed env (codes "NUSANTARA_PROVISION_APPLY") on_linux)
                  (λ apply.
                    number_then env 1 _ _
                      (read_number-Read env (codes "NUSANTARA_UPDATE_LOG_LINES") 1 (pos 80) refl)
                      (λ lines c.
                        number_then env 0 _ _
                          (read_number-Read env (codes "NUSANTARA_UPDATE_COOLDOWN_SECS") 0 (pos 20)
                            refl)
                          (λ cooldown d. record {
                            shutdown_secs = a;
                            token_ttl_hours = b;
                            update_log_lines = c;
                            update_cooldown = d;
                          }))))))

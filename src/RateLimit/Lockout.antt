-- ===== src/RateLimit/Lockout.antt =====
-- When the limiter locks a key out, against a count of the failures in a row.
use nusantara_panel.Base.{
  ℕ, ℤ, pos, negsuc, ◌∙◌, ◌+◌, ◌-◌, ◌≤◌, Text, true, not, ◌&&◌, none, some, List, [], ◌∷◌, ltb, leb,
  if◌then◌else◌, ◌≡◌, ◌≢◌, refl, suc, arith,
}
use nusantara_panel.Base.Table.{
  lookup, lookup-insert_self, lookup-insert_ne, lookup-delete_self, lookup-delete_ne,
}
use nusantara_panel.RateLimit.{
  second, Entry, current, count_failure, LoginLimiter, allow, register_failure, register_success,
  new_login_limiter,
}

-- The failures of a key at some times, the latest first.
abbrev pub failures : Text → List ℕ → LoginLimiter → LoginLimiter
failures key [] l = l
failures key (t ∷ ts) l = register_failure key t (failures key ts l)

-- How many of the latest failures follow one another within the window.
abbrev pub streak : ℕ → List ℕ → ℕ
streak window [] = 0
streak window (t ∷ []) = 1
streak window (t ∷ s ∷ ts) =
    let rest = streak window (s ∷ ts) in if ltb window (t - s) then 1 else suc rest

pub failures_config :
    (key : Text) (ts : List ℕ) (l : LoginLimiter)
    → ((failures key ts l).max_fail ≡ l.max_fail) × ((failures key ts l).window ≡ l.window)
unfolding register_failure
failures_config key [] l = (refl, refl)
failures_config key (t ∷ ts) l = failures_config key ts l

pub register_entry :
    (key : Text) (now : ℕ) (l : LoginLimiter)
    → lookup key (register_failure key now l).entries
      ≡ some (count_failure l.max_fail l.window now (current l.window now (lookup key l.entries)))
unfolding register_failure
register_entry key now l = lookup-insert_self key _ l.entries

allow_entry :
    (key : Text) (now : ℕ) (l : LoginLimiter) (e : Entry)
    → lookup key l.entries ≡ some e
    → (allow key now l).0
      ≡ (if ltb l.window (now - e.last_attempt) then true else not (ltb now e.blocked_until))
unfolding allow
allow_entry key now l e h = ground arith

allow_missing :
    (key : Text) (now : ℕ) (l : LoginLimiter)
    → lookup key l.entries ≡ none
    → (allow key now l).0 ≡ true
unfolding allow
allow_missing key now l h = ground arith

pub allow_agree :
    (key : Text) (now : ℕ) (l m : LoginLimiter)
    → lookup key l.entries ≡ lookup key m.entries
    → l.window ≡ m.window
    → (allow key now l).0 ≡ (allow key now m).0
unfolding allow
allow_agree key now l m h w = ground arith

module _ (key : Text) (l : LoginLimiter) (new : lookup key l.entries ≡ none) where
  abbrev entry_of : ℕ → List ℕ → Entry
  entry_of t ts = record {
    fail_count = streak l.window (t ∷ ts);
    blocked_until = if leb l.max_fail (streak l.window (t ∷ ts)) then t + l.window else 0;
    last_attempt = t;
  }

  failures_entry :
      (t : ℕ) (ts : List ℕ) → lookup key (failures key (t ∷ ts) l).entries ≡ some (entry_of t ts)
  failures_entry t [] = rw (register_entry key t l, new) refl
  failures_entry t (s ∷ ts) =
      let (m, w) = failures_config key (s ∷ ts) l in
      rw (register_entry key t (failures key (s ∷ ts) l), m, w, failures_entry s ts) (ground arith)

  -- A key with no failures on record, then failures at the times `t ∷ ts`, the latest first: the key
  -- is refused exactly when the window since the last failure has not passed and at least `max_fail`
  -- failures have followed one another within the window.
  pub allow-failures :
      (now t : ℕ) (ts : List ℕ)
      → (allow key now (failures key (t ∷ ts) l)).0
        ≡ not (leb l.max_fail (streak l.window (t ∷ ts)) && ltb now (t + l.window))
  allow-failures now t ts =
      let (m, w) = failures_config key (t ∷ ts) l in
      rw (allow_entry key now (failures key (t ∷ ts) l) (entry_of t ts) (failures_entry t ts), w)
        (ground arith)

module _ (k key : Text) (other : key ≢ k) (now : ℕ) where
  failures_other :
      (ts : List ℕ) (l : LoginLimiter) → lookup k (failures key ts l).entries ≡ lookup k l.entries
  unfolding register_failure
  failures_other [] l = refl
  failures_other (t ∷ ts) l =
      lookup-insert_ne key k _ (failures key ts l).entries other ∙ failures_other ts l

  -- The failures and the success of one key change nothing for another, and after its success a key
  -- is admitted again.
  allow-others :
      (ts : List ℕ) (l : LoginLimiter)
      → ((allow k now (failures key ts l)).0 ≡ (allow k now l).0)
        × ((allow k now (register_success key l)).0 ≡ (allow k now l).0)
        × ((allow key now (register_success key (failures key ts l))).0 ≡ true)
  unfolding register_success
  allow-others ts l =
      let (m, w) = failures_config key ts l in
      (
        allow_agree k now _ l (failures_other ts l) w,
        allow_agree k now _ l (lookup-delete_ne key k l.entries other) refl,
        allow_missing key now _ (lookup-delete_self key (failures key ts l).entries),
      )

-- A limiter that is made with any arguments locks out after at least one failure, for at least a
-- second.
new_login_limiter_bounds :
    (max_fail window : ℤ)
    → (1 ≤ (new_login_limiter max_fail window).max_fail)
      × (second ≤ (new_login_limiter max_fail window).window)
unfolding new_login_limiter
new_login_limiter_bounds (pos m) (pos w) = ground arith
new_login_limiter_bounds (negsuc m) (pos w) = ground arith
new_login_limiter_bounds (pos m) (negsuc w) = ground arith
new_login_limiter_bounds (negsuc m) (negsuc w) = ground arith

-- ===== src/RateLimit.antt =====
-- internal/security/ratelimit/login_limiter.go: the limiter of failed logins. Times and durations
-- are nanoseconds; each method runs under the limiter's lock. The counter of failures is far from
-- the end of its range, and is a plain number.
pub mod Lockout
mod Tests
use nusantara_panel.Base.{
  ℕ, ◌+◌, ◌*◌, ◌-◌, Text, Bool, true, false, not, Option, none, some, [], ltb, leb, ℤ, pos, negsuc,
  if◌then◌else◌,
}
use nusantara_panel.Base.Table.{Table, lookup, insert, delete}

pub record Entry : Type 0 where
  pub fail_count : ℕ
  pub blocked_until : ℕ
  pub last_attempt : ℕ

pub record LoginLimiter : Type 0 where
  pub max_fail : ℕ
  pub window : ℕ
  pub entries : Table Entry

abbrev pub second : ℕ
second = 1_000_000_000

-- The value of an `int` argument, or the default where it is below the least one.
abbrev at_least : ℕ → ℕ → ℤ → ℕ
at_least least default (pos n) = if ltb n least then default else n
at_least least default (negsuc n) = default

pub new_login_limiter : ℤ → ℤ → LoginLimiter
new_login_limiter max_fail window = record {
  max_fail = at_least 1 5 max_fail;
  window = at_least second (300 * second) window;
  entries = [];
}

unfoldable pub allow : Text → ℕ → LoginLimiter → Bool × LoginLimiter
allow key now l = elim (lookup key l.entries) [
  | none ↦ (true, l)
  | some e ↦
      if ltb l.window (now - e.last_attempt)
      then (true, record l { entries = delete key l.entries })
      else (not (ltb now e.blocked_until), l)
]

abbrev pub empty_entry : Entry
empty_entry = record { fail_count = 0; blocked_until = 0; last_attempt = 0 }

-- The entry that a failure counts on: a new one if there is none or the old one has run out.
abbrev pub current : ℕ → ℕ → Option Entry → Entry
current window now none = empty_entry
current window now (some e) = if ltb window (now - e.last_attempt) then empty_entry else e

abbrev pub count_failure : ℕ → ℕ → ℕ → Entry → Entry
count_failure max_fail window now e = record {
  fail_count = e.fail_count + 1;
  blocked_until = if leb max_fail (e.fail_count + 1) then now + window else e.blocked_until;
  last_attempt = now;
}

unfoldable pub register_failure : Text → ℕ → LoginLimiter → LoginLimiter
register_failure key now l =
    let e = current l.window now (lookup key l.entries) in
    record l { entries = insert key (count_failure l.max_fail l.window now e) l.entries }

unfoldable pub register_success : Text → LoginLimiter → LoginLimiter
register_success key l = record l { entries = delete key l.entries }

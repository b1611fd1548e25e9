-- ===== src/Password.antt =====
-- internal/security/password/password.go. The package bcrypt is a parameter.
pub mod Verify
pub mod Tests
use nusantara_panel.Base.{
  [], ℕ, ◌≤◌, ◌<◌, ◌≡◌, Text, codes, Bool, true, false, ◌||◌, Result, ok, err, ltb, length, All,
  if◌then◌else◌, Unicode, trim_space, text_eq, has_prefix,
}

-- bcrypt.GenerateFromPassword at a cost and a text, and bcrypt.CompareHashAndPassword at a hash and a
-- text. A generated hash has the prefix "$2a$", holds printable characters of ASCII alone, and fits
-- the text that it was made from.
pub record Bcrypt : Type 0 where
  pub generate : ℕ → Text → Result Text Text
  pub compare : Text → Text → Bool
  pub compare-generate :
      (cost : ℕ) (plain encoded : Text)
      → generate cost plain ≡ ok encoded
      → compare encoded plain ≡ true
  pub generate_prefix :
      (cost : ℕ) (plain encoded : Text)
      → generate cost plain ≡ ok encoded
      → has_prefix encoded (codes "$2a$") ≡ true
  pub generate_printable :
      (cost : ℕ) (plain encoded : Text)
      → generate cost plain ≡ ok encoded
      → All (λ c. (33 ≤ c) × (c < 127)) encoded

abbrev pub default_cost : ℕ
default_cost = 12

abbrev pub min_password_len : ℕ
min_password_len = 8

pub data Error : Type 0 where
  weak_password : Error
  bcrypt_fails : Text → Error

abbrev hashed : Result Text Text → Result Error Text
hashed (ok encoded) = ok encoded
hashed (err cause) = err (bcrypt_fails cause)

unfoldable pub hash : Bcrypt → Text → Result Error Text
hash b plain =
    if ltb (length plain) min_password_len
    then err weak_password
    else hashed (b.generate default_cost plain)

module _ ⦃u : Unicode⦄ where
  unfoldable pub verify : Bcrypt → Text → Text → Bool
  verify b plain given =
      let encoded = trim_space given in
      if text_eq encoded []
      then false
      else if has_prefix encoded (codes "$2a$")
          || has_prefix encoded (codes "$2b$")
          || has_prefix encoded (codes "$2y$")
      then b.compare encoded plain
      else false

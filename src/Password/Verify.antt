-- ===== src/Password/Verify.antt =====
-- A password fits its own hash.
use nusantara_panel.Base.{
  Text, ◌≡◌, refl, [], ◌∷◌, ok, true, false, codes, Unicode, trim_space_printable, has_prefix,
  text_eq, arith,
}
use nusantara_panel.Password.{Bcrypt, hash, verify, default_cost}

hash-generate :
    (b : Bcrypt) (plain encoded : Text)
    → hash b plain ≡ ok encoded
    → b.generate default_cost plain ≡ ok encoded
unfolding hash
hash-generate b plain encoded h = ground arith

ne-nil_of_prefix : (s : Text) → has_prefix s (codes "$2a$") ≡ true → text_eq s [] ≡ false
unfolding has_prefix text_eq
ne-nil_of_prefix [] h = cc
ne-nil_of_prefix (c ∷ s) h = refl

-- Whatever password `hash` accepts, its hash verifies.
pub verify-hash :
    ⦃u : Unicode⦄
    → (b : Bcrypt) (plain encoded : Text) → hash b plain ≡ ok encoded
    → verify b plain encoded ≡ true
unfolding verify
verify-hash b plain encoded h =
    let g = hash-generate b plain encoded h in
    let p = b.generate_prefix default_cost plain encoded g in
    rw
      (
        trim_space_printable encoded (b.generate_printable default_cost plain encoded g),
        ne-nil_of_prefix encoded p,
        p,
      )
      (b.compare-generate default_cost plain encoded g)

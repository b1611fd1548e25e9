-- ===== src/Password/Tests.antt =====
-- A package bcrypt for tests, which writes a printable password behind its prefix.
use nusantara_panel.Base.{
  ◌≡◌, refl, ◌≤◌, ◌<◌, ◌&&◌, [], ◌∷◌, ◌++◌, Text, ok, err, Result, codes, true, if◌then◌else◌, leb,
  ltb, all, All, arith, has_prefix, text_eq, text_eq_self, ascii_tables, Bool-cases, inl, inr, Bool,
  ℕ,
}
use nusantara_panel.Password.{Bcrypt, hash, verify}
use nusantara_panel.Password.Verify.{verify-hash}

abbrev pub is_printable : Text → Bool
is_printable s = all (λ c. leb 33 c && ltb c 127) s

abbrev pub generate : ℕ → Text → Result Text Text
generate cost plain =
    if is_printable plain then ok (codes "$2a$" ++ plain) else err (codes "not printable")

All-printable : (s : Text) → is_printable s ≡ true → All (λ c. (33 ≤ c) × (c < 127)) s
All-printable [] h = tt
All-printable (c ∷ s) h = (ground arith, All-printable s (ground arith))

generate_lem :
    (cost : ℕ) (plain encoded : Text)
    → generate cost plain ≡ ok encoded
    → (is_printable plain ≡ true) × (codes "$2a$" ++ plain ≡ encoded)
generate_lem cost plain encoded h = elim (Bool-cases (is_printable plain)) [
  | inl e ↦ ground arith
  | inr e ↦ ground arith
]

pub compare-generate_lem :
    (cost : ℕ) (plain encoded : Text)
    → generate cost plain ≡ ok encoded
    → text_eq encoded (codes "$2a$" ++ plain) ≡ true
compare-generate_lem cost plain encoded h =
    rw (← (generate_lem cost plain encoded h).1) (text_eq_self (codes "$2a$" ++ plain))

pub generate_prefix_lem :
    (cost : ℕ) (plain encoded : Text)
    → generate cost plain ≡ ok encoded
    → has_prefix encoded (codes "$2a$") ≡ true
unfolding has_prefix
generate_prefix_lem cost plain encoded h = rw (← (generate_lem cost plain encoded h).1) refl

pub generate_printable_lem :
    (cost : ℕ) (plain encoded : Text)
    → generate cost plain ≡ ok encoded
    → All (λ c. (33 ≤ c) × (c < 127)) encoded
generate_printable_lem cost plain encoded h =
    let (plain_ok, e) = generate_lem cost plain encoded h in
    rw (← e) (
      (omega arith, omega arith),
      (
        (omega arith, omega arith),
        ((omega arith, omega arith), ((omega arith, omega arith), All-printable plain plain_ok)),
      ),
    )

abbrev pub plain_bcrypt : Bcrypt
plain_bcrypt = record {
  generate = generate;
  compare = λ encoded plain. text_eq encoded (codes "$2a$" ++ plain);
  compare-generate = compare-generate_lem;
  generate_prefix = generate_prefix_lem;
  generate_printable = generate_printable_lem;
}

verify-hash_example : verify plain_bcrypt (codes "letmein99") (codes "$2a$letmein99") ≡ true
unfolding hash
verify-hash_example = verify-hash plain_bcrypt (codes "letmein99") (codes "$2a$letmein99") refl

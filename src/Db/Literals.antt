-- ===== src/Db/Literals.antt =====
-- The quoting of texts: what a server reads for a literal that `escape_sql_string` has made.
use nusantara_panel.Base.{
  replace_all_byte, ◌≡◌, refl, Text, codes, [], ◌∷◌, ◌++◌, ◌≢◌, Option, none, some, ◌==◌,
  if◌then◌else◌, arith, All, ℕ, replace_all, Bool-cases, inl, inr,
}
use nusantara_panel.Db.{escape_sql_string}

abbrev pub with_byte : ℕ → Option (Text × Text) → Option (Text × Text)
with_byte c none = none
with_byte c (some (value, rest)) = some (c ∷ value, rest)

-- A literal of MySQL in its default mode, behind its first quote: its value and what follows it. A
-- quote that is doubled stands for one, a backslash makes the next byte literal, and a single quote
-- ends it.
unfoldable pub read_literal : Text → Option (Text × Text)
read_literal [] = none
read_literal (c ∷ []) = if c == b'\'' then some ([], []) else none
read_literal (c ∷ d ∷ s) =
    let two = read_literal s in
    let one = read_literal (d ∷ s) in
    if c == b'\\'
    then with_byte d two
    else if c == b'\''
    then (if d == b'\'' then with_byte b'\'' two else some ([], d ∷ s))
    else with_byte c one

escape_nil : escape_sql_string [] ≡ []
unfolding escape_sql_string replace_all
escape_nil = refl

escape_cons :
    (c : ℕ) (v : Text)
    → escape_sql_string (c ∷ v)
      ≡ (if c == b'\'' then b'\'' ∷ b'\'' ∷ escape_sql_string v else c ∷ escape_sql_string v)
unfolding escape_sql_string
escape_cons c v = replace_all_byte b'\'' c v (codes "''")

read_literal_other :
    (d : ℕ) (xs : Text) (y : ℕ) (ys : Text)
    → d ≢ b'\\'
    → d ≢ b'\''
    → read_literal (d ∷ (xs ++ (y ∷ ys))) ≡ with_byte d (read_literal (xs ++ (y ∷ ys)))
unfolding read_literal
read_literal_other d [] y ys a b = ground arith
read_literal_other d (x ∷ xs) y ys a b = ground arith

read_literal_doubled :
    (s : Text) → read_literal (b'\'' ∷ b'\'' ∷ s) ≡ with_byte b'\'' (read_literal s)
unfolding read_literal
read_literal_doubled s = ground arith

-- A text without a backslash that is quoted and set in a statement, whose next byte is no quote, is
-- read back whole, and reading goes on behind its last quote.
pub read_literal-escape :
    (v : Text) (c : ℕ) (rest : Text)
    → All (λ d. d ≢ b'\\') v
    → c ≢ b'\''
    → read_literal (escape_sql_string v ++ (b'\'' ∷ c ∷ rest)) ≡ some (v, c ∷ rest)
unfolding read_literal
read_literal-escape [] c rest h ne = rw escape_nil (ground arith)
read_literal-escape (d ∷ v) c rest h ne =
    let ih = read_literal-escape v c rest h.1 ne in
    elim (Bool-cases (d == b'\'')) [
      | inl e ↦
          rw
            (
              escape_cons d v,
              e,
              read_literal_doubled (escape_sql_string v ++ (b'\'' ∷ c ∷ rest)),
              ih,
            )
            (ground arith)
      | inr e ↦
          rw
            (
              escape_cons d v,
              e,
              read_literal_other d (escape_sql_string v) b'\'' (c ∷ rest) h.0 (ground arith),
              ih,
            )
            refl
    ]

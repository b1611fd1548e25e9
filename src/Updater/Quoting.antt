-- ===== src/Updater/Quoting.antt =====
-- `shellQuote` of internal/updater/service.go against a reader of the words of a POSIX shell.
use nusantara_panel.Base.{
  ==_iff, refl, Bool-cases, inl, inr, replace_all_byte, inr, replace_all_byte, inl, Bool-cases, [],
  ◌≡◌, ◌==◌, if◌then◌else◌, ◌++◌, ◌∷◌, any, none, Bool, some, codes, Option, replace_all, ℕ, Text,
}
use mathlib.Core.List.{append_assoc}
use nusantara_panel.Updater.{shell_quote}

-- Outside of quotes, in single quotes, in double quotes
pub data Mode : Type 0 where
  plain single double : Mode

-- What a character of a word outside of quotes must not be: the shell does more with it than take it.
abbrev is_special : ℕ → Bool
is_special c = any (λ d. d == c) (codes "|&;<>()$`\\*?[#~=%\n\t")

abbrev is_expanded : ℕ → Bool
is_expanded c = any (λ d. d == c) (codes "$`\\!")

abbrev consed : ℕ → Option (Text × Text) → Option (Text × Text)
consed c none = none
consed c (some (word, rest)) = some (c ∷ word, rest)

-- The rest of a word and what follows it, read as the shell reads it, or nothing when the shell would
-- expand something in it, or when a quote is left open. A space ends the word.
unfoldable pub read_word : Mode → Text → Option (Text × Text)
read_word plain [] = some ([], [])
read_word single [] = none
read_word double [] = none
read_word plain (c ∷ s) =
    let closed = read_word plain s in
    let in_single = read_word single s in
    let in_double = read_word double s in
    if c == b'\''
    then in_single
    else if c == b'"'
    then in_double
    else if c == 32
    then some ([], s)
    else if is_special c
    then none
    else consed c closed
read_word single (c ∷ s) =
    let closed = read_word plain s in
    let inside = read_word single s in if c == b'\'' then closed else consed c inside
read_word double (c ∷ s) =
    let closed = read_word plain s in
    let inside = read_word double s in
    if c == b'"' then closed else if is_expanded c then none else consed c inside

quoted-read :
    (v rest : Text)
    → read_word single (replace_all v (codes "'") (codes "'\"'\"'") ++ (b'\'' ∷ 32 ∷ rest))
      ≡ some (v, rest)
unfolding read_word replace_all
quoted-read [] rest = refl
quoted-read (c ∷ v) rest = elim (Bool-cases (c == b'\'')) [
  | inl e ↦
      rw (replace_all_byte b'\'' c v (codes "'\"'\"'"), e)
        (rw (quoted-read v rest, (==_iff c 39).0 e) refl)
  | inr e ↦ rw (replace_all_byte b'\'' c v (codes "'\"'\"'"), e) (rw (e, quoted-read v rest) refl)
]

-- The shell reads a quoted text, with a space behind it, as the one word that was quoted, whatever
-- characters it has: nothing in it is expanded, and nothing of it leaves the word.
pub shell_quote-read_word :
    (v rest : Text) → read_word plain (shell_quote v ++ (32 ∷ rest)) ≡ some (v, rest)
unfolding read_word shell_quote
shell_quote-read_word v rest =
    rw (append_assoc (replace_all v (codes "'") (codes "'\"'\"'")) (codes "'") (32 ∷ rest))
      (quoted-read v rest)

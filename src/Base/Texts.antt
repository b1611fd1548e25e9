-- ===== src/Base/Texts.antt =====
-- Go's strings as lists of bytes, with the functions of the package `strings` that the panel uses.
use Prim.Native.Nat.{◌<◌, ◌≤◌, ℕ, zero, suc, ◌+◌, ◌-◌}
use Prim.Native.Char.{code}
use Prim.Native.String.{String}
use mathlib.Core.Path.{◌≡◌, refl}
use mathlib.Core.Logic.{◌↔◌, ◌≢◌}
use mathlib.Core.Bool.{Bool, true, false, ◌&&◌, ◌||◌}
use mathlib.Core.List.{reverse-reverse, reverse-reverse, List, [], ◌∷◌, ◌++◌, map, reverse}
use native.Mathlib.Omega.{arith}
use mathlib.Core.Logic.{inl, inr}
use nusantara_panel.Base.Tests.{ltb, leb, ◌==◌, if◌then◌else◌, Bool-cases}
use nusantara_panel.Base.Lists.{All-reverse, All-reverse, length, take, drop, all, All}

abbrev pub Text : Type 0
Text = List ℕ

-- The bytes of an ASCII literal.
abbrev pub codes : String → Text
codes String.[] = []
codes (String.◌∷◌ c s) = code c ∷ codes s

unfoldable pub text_eq : Text → Text → Bool
text_eq [] [] = true
text_eq (a ∷ s) (b ∷ t) = a == b && text_eq s t
text_eq _ _ = false

text_eq_refl : (s : Text) → text_eq s s ≡ true
unfolding text_eq
text_eq_refl [] = refl
text_eq_refl (a ∷ s) = ground (arith, text_eq_refl s)

eq_of_text_eq : (s t : Text) → text_eq s t ≡ true → s ≡ t
unfolding text_eq
eq_of_text_eq [] [] h = refl
eq_of_text_eq [] (b ∷ t) h = cc
eq_of_text_eq (a ∷ s) [] h = cc
eq_of_text_eq (a ∷ s) (b ∷ t) h = ground (arith, eq_of_text_eq s t)

pub text_eq_iff : (s t : Text) → (text_eq s t ≡ true) ↔ (s ≡ t)
text_eq_iff s t = (eq_of_text_eq s t, λ e. rw e (text_eq_refl t))

pub text_eq_self : (s : Text) → text_eq s s ≡ true
text_eq_self s = text_eq_refl s

pub text_eq-false : (s t : Text) → s ≢ t → text_eq s t ≡ false
text_eq-false s t h = ground (arith, text_eq_iff s t)

pub ne_of_text_eq : (s t : Text) → text_eq s t ≡ false → s ≢ t
ne_of_text_eq s t h = λ e. cc ((text_eq_iff s t).1 e, h)

-- strings.HasPrefix(s, p)
unfoldable pub has_prefix : Text → Text → Bool
has_prefix s [] = true
has_prefix [] (b ∷ p) = false
has_prefix (a ∷ s) (b ∷ p) = a == b && has_prefix s p

-- strings.HasSuffix(s, p)
unfoldable pub has_suffix : Text → Text → Bool
unfolding text_eq
has_suffix s p = leb (length p) (length s) && text_eq (drop (length s - length p) s) p

-- strings.Contains(s, sub)
unfoldable pub contains : Text → Text → Bool
unfolding has_prefix
contains [] sub = has_prefix [] sub
contains (a ∷ s) sub = has_prefix (a ∷ s) sub || contains s sub

abbrev pub cons_head : ℕ → List Text → List Text
cons_head c [] = (c ∷ []) ∷ []
cons_head c (p ∷ ps) = (c ∷ p) ∷ ps

-- strings.Split(s, sep) at a separator of one byte
unfoldable pub split : Text → ℕ → List Text
split [] sep = [] ∷ []
split (c ∷ s) sep = let rest = split s sep in if c == sep then [] ∷ rest else cons_head c rest

-- strings.Join(parts, sep) at a separator of one byte
unfoldable pub join : List Text → ℕ → Text
join [] sep = []
join (p ∷ []) sep = p
join (p ∷ q ∷ ps) sep = p ++ (sep ∷ join (q ∷ ps) sep)

replace_from : ℕ → Text → Text → Text → Text
replace_from n [] old new = []
replace_from (suc n) (c ∷ s) old new = replace_from n s old new
replace_from zero (c ∷ s) old new =
    let hit = has_prefix (c ∷ s) old in
    let rest = replace_from (if hit then length old - 1 else 0) s old new in
    if hit then new ++ rest else c ∷ rest

-- strings.ReplaceAll(s, old, new) with old not empty
unfoldable pub replace_all : Text → Text → Text → Text
unfolding replace_from has_prefix
replace_all s old new = replace_from 0 s old new

pub replace_all_byte :
    (q c : ℕ) (s new : Text)
    → replace_all (c ∷ s) (q ∷ []) new
      ≡ (if c == q then new ++ replace_all s (q ∷ []) new else c ∷ replace_all s (q ∷ []) new)
unfolding replace_all has_prefix
replace_all_byte q c s new = elim (Bool-cases (c == q)) [ inl e ↦ rw e refl | inr e ↦ rw e refl ]

-- strings.TrimPrefix and strings.TrimSuffix
unfoldable pub trim_prefix : Text → Text → Text
unfolding has_prefix
trim_prefix s p = if has_prefix s p then drop (length p) s else s

unfoldable pub trim_suffix : Text → Text → Text
unfolding has_suffix
trim_suffix s p = if has_suffix s p then take (length s - length p) s else s

abbrev pub between : ℕ → ℕ → ℕ → Bool
between lo hi c = leb lo c && leb c hi

abbrev pub is_upper : ℕ → Bool
is_upper = between b'A' b'Z'

abbrev pub is_lower : ℕ → Bool
is_lower = between b'a' b'z'

abbrev pub is_digit : ℕ → Bool
is_digit = between b'0' b'9'

abbrev pub lower_byte : ℕ → ℕ
lower_byte c = if is_upper c then c + 32 else c

-- tab, line feed, vertical tab, form feed, carriage return and the space
abbrev pub is_space : ℕ → Bool
is_space c = c == 32 || (leb 9 c && leb c 13)

abbrev pub is_ascii : Text → Bool
is_ascii = all (λ c. ltb c 128)

-- What strings.ToLower and strings.TrimSpace make of a text that is not ASCII depends on the
-- Unicode tables, which are a parameter. Lower case never has an ASCII capital.
pub record Unicode : Type 0 where
  pub lower : Text → Text
  pub trim : Text → Text
  pub lower_no_upper : (s : Text) → All (λ c. is_upper c ≡ false) (lower s)

unfoldable pub drop_spaces : Text → Text
drop_spaces [] = []
drop_spaces (c ∷ s) = let rest = drop_spaces s in if is_space c then rest else c ∷ s

abbrev pub trim_ascii : Text → Text
trim_ascii s = reverse (drop_spaces (reverse (drop_spaces s)))

-- The words of a text, as strings.Fields gives them for ASCII.
abbrev pub words : Text → Text → List Text
words [] [] = []
words [] (c ∷ s) = if is_space c then words [] s else words (c ∷ []) s
words (a ∷ word) [] = reverse (a ∷ word) ∷ []
words (a ∷ word) (c ∷ s) =
    if is_space c then reverse (a ∷ word) ∷ words [] s else words (c ∷ a ∷ word) s

module _ ⦃u : Unicode⦄ where
  -- strings.ToLower
  unfoldable pub to_lower : Text → Text
  to_lower s = if is_ascii s then map lower_byte s else u.lower s

  -- strings.TrimSpace
  unfoldable pub trim_space : Text → Text
  unfolding drop_spaces
  trim_space s = if is_ascii s then trim_ascii s else u.trim s

  map-lower_byte_no_upper : (s : Text) → All (λ c. is_upper c ≡ false) (map lower_byte s)
  map-lower_byte_no_upper [] = tt
  map-lower_byte_no_upper (c ∷ s) = (ground arith, map-lower_byte_no_upper s)

  pub to_lower_no_upper : (s : Text) → All (λ c. is_upper c ≡ false) (to_lower s)
  unfolding to_lower
  to_lower_no_upper s = elim (Bool-cases (is_ascii s)) [
    | inl e ↦ rw e (map-lower_byte_no_upper s)
    | inr e ↦ rw e (u.lower_no_upper s)
  ]

pub lower_bytes_no_upper : (s : Text) → All (λ c. is_upper c ≡ false) (map lower_byte s)
lower_bytes_no_upper [] = tt
lower_bytes_no_upper (c ∷ s) = (ground arith, lower_bytes_no_upper s)

drop_spaces_printable : (s : Text) → All (λ c. (33 ≤ c) × (c < 127)) s → drop_spaces s ≡ s
unfolding drop_spaces
drop_spaces_printable [] h = refl
drop_spaces_printable (c ∷ s) h = ground arith

is_ascii_printable : (s : Text) → All (λ c. (33 ≤ c) × (c < 127)) s → is_ascii s ≡ true
is_ascii_printable [] h = refl
is_ascii_printable (c ∷ s) h = ground (arith, is_ascii_printable s h.1)

-- A text of printable characters of ASCII has no space to trim.
pub trim_space_printable :
    ⦃u : Unicode⦄ → (s : Text) → All (λ c. (33 ≤ c) × (c < 127)) s → trim_space s ≡ s
unfolding trim_space
trim_space_printable s h =
    rw
      (
        is_ascii_printable s h,
        drop_spaces_printable s h,
        drop_spaces_printable (reverse s) (All-reverse _ s h),
        reverse-reverse s,
      )
      refl

-- The tables that know the ASCII letters alone.
instance abbrev pub ascii_tables : Unicode
ascii_tables = record {
  lower = map lower_byte;
  trim = trim_ascii;
  lower_no_upper = lower_bytes_no_upper;
}

lower_test : trim_space (to_lower (codes " Ab.C\t ")) ≡ codes "ab.c"
unfolding to_lower trim_space
lower_test = refl

split_test : split (codes "a..b") b'.' ≡ codes "a" ∷ [] ∷ codes "b" ∷ []
unfolding split
split_test = refl

replace_test : replace_all (codes "a...b") (codes "..") (codes ".") ≡ codes "a..b"
unfolding replace_all
replace_test = refl

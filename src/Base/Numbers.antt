-- ===== src/Base/Numbers.antt =====
-- strconv.Atoi on a machine whose `int` has 64 bits, and the pieces of a text around a separator.
use Prim.Native.Nat.{ℕ, ◌+◌, ◌-◌, ◌*◌, ◌^◌}
use mathlib.Core.Path.{◌≡◌, refl}
use mathlib.Core.Bool.{Bool, true, false, not}
use mathlib.Core.List.{[], ◌∷◌, map}
use mathlib.Core.Option.{Option, none, some}
use nusantara_panel.Base.Tests.{ltb, leb, ◌==◌, if◌then◌else◌, ℤ, pos, negsuc}
use nusantara_panel.Base.Texts.{Text, codes, is_digit, text_eq, lower_byte}

-- The digits of an unsigned number: its value, too large for 64 bits, or not a number. What stands
-- behind the digit that makes it too large is not read.
pub data Scan : Type 0 where
  value : ℕ → Scan
  too_large no_number : Scan

unfoldable pub scan : Text → ℕ → Scan
scan [] n = value n
scan (c ∷ s) n =
    let next = n * 10 + (c - b'0') in
    let rest = scan s next in
    if not (is_digit c) then no_number else if leb (2 ^ 64) next then too_large else rest

pub data Parsed : Type 0 where
  number out_of_range : ℤ → Parsed
  bad_syntax : Parsed

abbrev pub min_int : ℤ
min_int = negsuc (2 ^ 63 - 1)

abbrev pub max_int : ℤ
max_int = pos (2 ^ 63 - 1)

abbrev negated : ℕ → ℤ
negated n = if n == 0 then pos 0 else negsuc (n - 1)

abbrev signed : Bool → Scan → Parsed
signed negative no_number = bad_syntax
signed true too_large = out_of_range min_int
signed false too_large = out_of_range max_int
signed true (value n) = if ltb (2 ^ 63) n then out_of_range min_int else number (negated n)
signed false (value n) = if leb (2 ^ 63) n then out_of_range max_int else number (pos n)

abbrev digits : Bool → Text → Parsed
digits negative [] = bad_syntax
digits negative (c ∷ s) = signed negative (scan (c ∷ s) 0)

-- strconv.Atoi: beside the error of a number that is out of range, the nearest number is returned.
unfoldable pub atoi : Text → Parsed
unfolding scan
atoi [] = bad_syntax
atoi (c ∷ s) =
    if c == b'-' then digits true s else if c == b'+' then digits false s else digits false (c ∷ s)

-- strings.SplitN(s, sep, 2) at a separator of one byte, where it gives two pieces
unfoldable pub cut : Text → ℕ → Option (Text × Text)
cut [] sep = none
cut (c ∷ s) sep =
    let rest = cut s sep in
    if c == sep then some ([], s) else elim rest [ none ↦ none | some (a, b) ↦ some (c ∷ a, b) ]

-- strings.EqualFold with an ASCII text in lower case that has neither a `k` nor an `s`: no letter
-- outside ASCII folds to one of its letters.
unfoldable pub equal_fold : Text → Text → Bool
unfolding text_eq
equal_fold s t = text_eq (map lower_byte s) t

atoi_tests :
    (atoi (codes "-12") ≡ number (negsuc 11))
    × (atoi (codes "+") ≡ bad_syntax)
    × (atoi (codes "9223372036854775808") ≡ out_of_range max_int)
    × (atoi (codes "99999999999999999999x") ≡ out_of_range max_int)
unfolding atoi
atoi_tests = (refl, refl, refl, refl)

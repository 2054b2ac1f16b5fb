-- ===== src/Shared/Text.antt =====
-- Text of the Go standard library that the program uses: `strings` over characters, `strconv.Atoi`.
use Prim.Native.Nat.{ℕ, zero, suc, ◌+◌, ◌-◌, ◌*◌, ◌^◌}
use Prim.Native.Char.{Char, code}
use Prim.Native.String.{String, ◌++◌ as str_append}
use Prim.Native.String
use mathlib.Core.Path.{◌≡◌, refl}
use mathlib.Core.Bool.{Bool, true, false, ◌&&◌, ◌||◌}
use mathlib.Core.Option.{Option, none, some}
use mathlib.Core.List.{List, [], ◌∷◌}
use text.Mathlib.Text.{◌==◌ as str_eq}
use batchq.Shared.Tests.{leb, ◌==◌, if◌then◌else◌}
use batchq.Shared.Int.{ℤ, pos, negsuc}

abbrev pub is_digit : ℕ → Bool
is_digit c = leb b'0' c && leb c b'9'

-- The value of a run of decimal digits, read after `n`; `none` at another character.
unfoldable pub digits : ℕ → String → Option ℕ
digits n String.[] = some n
digits n (String.◌∷◌ c s) =
    let rest = digits (n * 10 + (code c - 48)) s in if is_digit (code c) then rest else none

-- At least one digit.
unfoldable pub digits_of : String → Option ℕ
unfolding digits
digits_of String.[] = none
digits_of s = digits 0 s

abbrev pub max_int : ℕ
max_int = 2 ^ 63 - 1

abbrev pub in_range : Option ℕ → Option ℤ
in_range none = none
in_range (some n) = if leb n max_int then some (pos n) else none

-- -0 is 0, and the least value is -(max_int + 1)
abbrev pub negated : Option ℕ → Option ℤ
negated none = none
negated (some zero) = some (pos 0)
negated (some (suc n)) = if leb n max_int then some (negsuc n) else none

-- `strconv.Atoi`, with `none` for its error: an optional sign, then decimal digits, in 64 bits.
unfoldable pub atoi : String → Option ℤ
unfolding digits_of
atoi String.[] = none
atoi (String.◌∷◌ c s) =
    if code c == b'-'
    then negated (digits_of s)
    else if code c == b'+'
    then in_range (digits_of s)
    else in_range (digits_of (String.◌∷◌ c s))

-- As `digits`, but done at the digit that makes the value pass 64 bits.
unfoldable pub read_value : ℕ → String → Option ℕ
read_value n String.[] = some n
read_value n (String.◌∷◌ c s) =
    let m = n * 10 + (code c - 48) in
    let rest = read_value m s in
    if is_digit (code c) then if leb (2 ^ 64) m then some m else rest else none

unfoldable pub value_of : String → Option ℕ
unfolding read_value
value_of String.[] = none
value_of s = read_value 0 s

unfoldable pub clipped : (negative : Bool) → Option ℕ → ℤ
clipped negative none = pos 0
clipped false (some n) = pos (if leb n max_int then n else max_int)
clipped true (some zero) = pos 0
clipped true (some (suc n)) = negsuc (if leb n max_int then n else max_int)

-- The number that `strconv.Atoi` returns beside its error: the nearest one where the value is out
-- of range, else 0.
unfoldable pub atoi_value : String → ℤ
unfolding clipped value_of
atoi_value String.[] = pos 0
atoi_value (String.◌∷◌ c s) =
    if code c == b'-'
    then clipped true (value_of s)
    else clipped false (value_of (if code c == b'+' then s else String.◌∷◌ c s))

atoi_runs : (atoi "-0042" ≡ some (negsuc 41)) × (atoi "+7" ≡ some (pos 7)) × (atoi "1x" ≡ none)
unfolding atoi
atoi_runs = (refl, refl, refl)

atoi_value_runs :
    (atoi_value "-12" ≡ negsuc 11)
    × (atoi_value "1x" ≡ pos 0)
    × (atoi_value "99999999999999999999" ≡ pos max_int)
unfolding atoi_value
atoi_value_runs = (refl, refl, refl)

-- The characters that `strings.TrimSpace` takes off: Unicode's White_Space.
unfoldable pub is_space : ℕ → Bool
is_space c =
    (leb 9 c && leb c 13)
    || (c == 32)
    || (c == 0x85)
    || (c == 0xa0)
    || (c == 0x1680)
    || (leb 0x2000 c && leb c 0x200a)
    || (c == 0x2028)
    || (c == 0x2029)
    || (c == 0x202f)
    || (c == 0x205f)
    || (c == 0x3000)

unfoldable pub trim_left : String → String
trim_left String.[] = ""
trim_left (String.◌∷◌ c s) =
    let rest = trim_left s in if is_space (code c) then rest else String.◌∷◌ c s

unfoldable pub trim_right : String → String
trim_right String.[] = ""
trim_right (String.◌∷◌ c s) =
    let rest = trim_right s in if str_eq rest "" && is_space (code c) then "" else String.◌∷◌ c rest

-- `strings.TrimSpace`
unfoldable pub trim_space : String → String
unfolding trim_left trim_right is_space
trim_space s = trim_right (trim_left s)

onto : Char → List String → List String
onto c [] = String.◌∷◌ c "" ∷ []
onto c (p ∷ ps) = String.◌∷◌ c p ∷ ps

-- `strings.Split` at one ASCII character: always at least one part.
unfoldable pub split : ℕ → String → List String
unfolding onto
split sep String.[] = "" ∷ []
split sep (String.◌∷◌ c s) =
    let rest = split sep s in if code c == sep then "" ∷ rest else onto c rest

abbrev pub begun_by : Char → Option (String × String) → Option (String × String)
begun_by c none = none
begun_by c (some (a, b)) = some (String.◌∷◌ c a, b)

-- The texts before and after the first such character.
unfoldable pub cut : ℕ → String → Option (String × String)
cut sep String.[] = none
cut sep (String.◌∷◌ c s) =
    let later = begun_by c (cut sep s) in if code c == sep then some ("", s) else later

-- The texts before and after the last such character.
unfoldable pub cut_last : ℕ → String → Option (String × String)
cut_last sep String.[] = none
cut_last sep (String.◌∷◌ c s) = elim (cut_last sep s) [
  | some (a, b) ↦ some (String.◌∷◌ c a, b)
  | none ↦ if code c == sep then some ("", s) else none
]

-- `strings.Contains` of one ASCII character
unfoldable pub has_char : ℕ → String → Bool
has_char n String.[] = false
has_char n (String.◌∷◌ c s) = code c == n || has_char n s

-- `strings.HasPrefix`, and the rest behind the prefix
unfoldable pub strip_prefix : String → String → Option String
strip_prefix String.[] s = some s
strip_prefix (String.◌∷◌ p ps) String.[] = none
strip_prefix (String.◌∷◌ p ps) (String.◌∷◌ c s) =
    let rest = strip_prefix ps s in if code p == code c then rest else none

-- The first of the old texts that stands at the front, with its length and its replacement.
unfoldable pub match_first : List (String × String) → String → Option (ℕ × String)
unfolding strip_prefix
match_first [] s = none
match_first ((old, new) ∷ pairs) s = elim (strip_prefix old s) [
  | none ↦ match_first pairs s
  | some rest ↦ some (String.count old, new)
]

-- `strings.NewReplacer(…).Replace`, for old texts that are not empty. `skip` counts the characters
-- left of the text that was matched last.
unfoldable pub replace : List (String × String) → ℕ → String → String
unfolding match_first
replace pairs skip String.[] = ""
replace pairs (suc skip) (String.◌∷◌ c s) = replace pairs skip s
replace pairs zero (String.◌∷◌ c s) = elim (match_first pairs (String.◌∷◌ c s)) [
  | none ↦ String.◌∷◌ c (replace pairs zero s)
  | some (n, new) ↦ str_append new (replace pairs (n - 1) s)
]

text_runs :
    (trim_space "  a b\t" ≡ "a b")
    × (split b',' "x,,y" ≡ "x" ∷ "" ∷ "y" ∷ [])
    × (replace (("%JOBID", "7") ∷ ("%A", "q") ∷ []) 0 "r-%JOBID%A%" ≡ "r-7q%")
unfolding trim_space split replace
text_runs = (refl, refl, refl)

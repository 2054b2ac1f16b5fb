-- ===== src/Job/Quantities.antt =====
-- Memory and time: `ParseMemoryString`, `ParseWalltimeString` and `WalltimeToString` of jobs/jobdef.go.
use batchq.Shared.{
  ◌≡◌, refl, ℕ, zero, suc, ◌+◌, ◌-◌, ◌*◌, ◌/◌, ◌<◌, Bool, true, false, not, ◌&&◌, ◌||◌, Option,
  none, some, List, [], ◌∷◌, ◌++◌, arith, String, str_eq, Bool-cases, inl, inr, ltb, leb, ◌==◌, ◌↔◌,
  if◌then◌else◌,
}
use Prim.Native.Char.{Char, code}
use batchq.Shared.Int.{ℤ, pos, negsuc, ◌+ℤ◌}
use batchq.Shared.Int.Wrap.{wrap, scale}
use batchq.Shared.Text.{atoi, split, has_char, cut}

abbrev to_upper : ℕ → ℕ
to_upper c = if leb b'a' c && leb c b'z' then c - 32 else c

-- The two texts have the same letters, in upper case.
unfoldable pub same_upper : String → String → Bool
same_upper String.[] String.[] = true
same_upper String.[] (String.◌∷◌ d t) = false
same_upper (String.◌∷◌ c s) String.[] = false
same_upper (String.◌∷◌ c s) (String.◌∷◌ d t) =
    to_upper (code c) == to_upper (code d) && same_upper s t

abbrev longer : Char → Option String → Option String
longer c none = none
longer c (some s) = some (String.◌∷◌ c s)

-- What stands before a unit, its letters in either case.
unfoldable pub before_unit : String → String → Option String
before_unit unit String.[] = none
before_unit unit (String.◌∷◌ c s) =
    let later = longer c (before_unit unit s) in
    if same_upper (String.◌∷◌ c s) unit then some "" else later

-- One byte: `val[len(val)-2:]` is out of range then.
unfoldable pub is_one_byte : String → Bool
is_one_byte String.[] = false
is_one_byte (String.◌∷◌ c String.[]) = ltb (code c) 128
is_one_byte (String.◌∷◌ c (String.◌∷◌ d s)) = false

abbrev times : ℕ → Option ℤ → ℤ
times k none = negsuc 0
times k (some n) = scale k n

-- The amount in the first unit that the text ends in.
unfoldable pub by_unit : String → List (String × ℕ) → ℤ
by_unit val [] = times 1 (atoi val)
by_unit val ((unit, k) ∷ units) = elim (before_unit unit val) [
  | some amount ↦ times k (atoi amount)
  | none ↦ by_unit val units
]

-- `ParseMemoryString`, in MB; -1 where the text is no amount, `none` where the code panics.
unfoldable pub parse_memory_string : String → Option ℤ
parse_memory_string String.[] = some (negsuc 0)
parse_memory_string val =
    if is_one_byte val
    then none
    else some (by_unit val (("GB", 1000) ∷ ("G", 1000) ∷ ("MB", 1) ∷ ("M", 1) ∷ []))

abbrev part : ℤ → String → Option ℤ
part default text = if str_eq text "" then some default else atoi text

-- Sums and products wrap around; -1 where a part is no number.
abbrev seconds_of : ℤ → Option ℤ → Option ℤ → Option ℤ → ℤ
seconds_of days (some hours) (some minutes) (some seconds) = wrap (
    wrap (wrap (seconds +ℤ scale (60 * 60 * 24) days) +ℤ scale (60 * 60) hours) +ℤ scale 60 minutes)
seconds_of days hours minutes seconds = negsuc 0

-- The parts of HH:MM:SS from the last one; parts before the hours are not read. An empty last part
-- leaves the seconds at -1.
unfoldable pub by_colons : ℤ → List String → ℤ
by_colons days [] = negsuc 0
by_colons days (s ∷ []) = seconds_of days (some (pos 0)) (some (pos 0)) (part (negsuc 0) s)
by_colons days (s ∷ m ∷ []) = seconds_of days (some (pos 0)) (part (pos 0) m) (part (negsuc 0) s)
by_colons days (s ∷ m ∷ h ∷ more) =
    seconds_of days (part (pos 0) h) (part (pos 0) m) (part (negsuc 0) s)

unfoldable reverse_onto : List String → List String → List String
reverse_onto [] ys = ys
reverse_onto (x ∷ xs) ys = reverse_onto xs (x ∷ ys)

unfoldable clock : ℤ → String → ℤ
unfolding by_colons reverse_onto
clock days val =
    if has_char b':' val
    then by_colons days (reverse_onto (split b':' val) [])
    else seconds_of days (some (pos 0)) (some (pos 0)) (atoi val)

abbrev after_days : Option ℤ → String → ℤ
after_days none val = negsuc 0
after_days (some days) val = clock days val

-- `ParseWalltimeString`: DD-HH:MM:SS, or a number of seconds; -1 where it is neither.
unfoldable pub parse_walltime_string : String → ℤ
unfolding clock
parse_walltime_string val = elim (cut b'-' val) [
  | none ↦ clock (pos 0) val
  | some (days, rest) ↦ after_days (atoi days) rest
]

walltime_runs :
    (parse_walltime_string "1-02:03:04" ≡ pos 93784)
    × (parse_walltime_string "90" ≡ pos 90)
    × (parse_walltime_string "10:" ≡ pos 599)
    × (parse_walltime_string "x:1" ≡ negsuc 0)
unfolding parse_walltime_string clock by_colons reverse_onto split has_char cut atoi wrap scale ◌+ℤ◌
    batchq.Shared.Text.digits_of batchq.Shared.Text.digits
walltime_runs = (refl, refl, refl, refl)

memory_runs :
    (parse_memory_string "2gB" ≡ some (pos 2000))
    × (parse_memory_string "15M" ≡ some (pos 15))
    × (parse_memory_string "512" ≡ some (pos 512))
    × (parse_memory_string "x1" ≡ some (negsuc 0))
    × (parse_memory_string "4" ≡ none)
unfolding parse_memory_string is_one_byte by_unit before_unit same_upper atoi wrap scale
    batchq.Shared.Text.digits_of batchq.Shared.Text.digits
memory_runs = (refl, refl, refl, refl, refl)

-- ===== src/Job/ArraySpec.antt =====
-- Job-array specifications such as "1,3,5-9:2%20": `ParseArraySpec` of jobs/arrayspec.go.
pub mod Sorted
pub mod Expansion
pub mod Terms
pub mod Parse
use batchq.Shared.{
  ℕ, zero, suc, ◌+◌, Bool, true, false, not, ◌&&◌, ◌||◌, Option, none, some, List, [], ◌∷◌, length,
  String, str_eq, ltb, ◌==◌, if◌then◌else◌,
}
use batchq.Shared.Int.{ℤ, pos, negsuc, pos_part, neg_part, ◌+ℤ◌, ltb_ℤ}
use batchq.Shared.Int.Wrap.{wrap}
use batchq.Shared.Result.{Result, ok, err, other, no_fuel, ◌>>=◌, guard, ◌>>◌}
use batchq.Shared.Text.{atoi, trim_space, split, cut, cut_last}

abbrev pub max_array_tasks : ℕ
max_array_tasks = 100000

pub record ArraySpec : Type 0 where
  pub indices : List ℤ
  pub throttle : ℤ

abbrev pub eq_ℤ : ℤ → ℤ → Bool
eq_ℤ a b = pos_part a + neg_part b == pos_part b + neg_part a

unfoldable pub contains_ℤ : List ℤ → ℤ → Bool
contains_ℤ [] k = false
contains_ℤ (x ∷ xs) k = eq_ℤ x k || contains_ℤ xs k

-- `add`, the newest index first; too many are an error.
unfoldable pub add_index : ℤ → List ℤ → Result (List ℤ)
add_index n indices =
    if contains_ℤ indices n
    then ok indices
    else if ltb max_array_tasks (suc (length indices))
    then err other
    else ok (n ∷ indices)

-- The loop over one range, on fuel. The index wraps around in 64 bits.
unfoldable pub expand : ℕ → (n hi step : ℤ) → List ℤ → Result (List ℤ)
expand zero n hi step indices = err no_fuel
expand (suc fuel) n hi step indices = elim (ltb_ℤ hi n) [
  | true ↦ ok indices
  | false ↦ elim (add_index n indices) [
    | err e ↦ err e
    | ok more ↦ expand fuel (wrap (n +ℤ step)) hi step more
  ]
]

abbrev both_numbers : Option ℤ → Option ℤ → Option (ℤ × ℤ)
both_numbers (some lo) (some hi) = if ltb_ℤ lo (pos 0) || ltb_ℤ hi lo then none else some (lo, hi)
both_numbers lo hi = none

abbrev one_number : Option ℤ → Option (ℤ × ℤ)
one_number none = none
one_number (some n) = if ltb_ℤ n (pos 0) then none else some (n, n)

-- `parseRange`, with `none` for its errors.
unfoldable pub parse_range : String → Option (ℤ × ℤ)
parse_range term = elim (cut b'-' term) [
  | some (a, b) ↦ both_numbers (atoi (trim_space a)) (atoi (trim_space b))
  | none ↦ one_number (atoi term)
]

-- A number above 0.
abbrev positive : Option ℤ → Option ℤ
positive none = none
positive (some n) = if ltb_ℤ (pos 0) n then some n else none

pub record Term : Type 0 where
  pub lo : ℤ
  pub hi : ℤ
  pub step : ℤ

abbrev with_step : Option ℤ → Option (ℤ × ℤ) → Option Term
with_step (some step) (some (lo, hi)) = some (record { lo = lo; hi = hi; step = step })
with_step step range = none

-- A range and its step, which is 1 where none is given.
unfoldable pub stepped_range : String → Option Term
stepped_range term = elim (cut b':' term) [
  | none ↦ with_step (some (pos 1)) (parse_range term)
  | some (a, b) ↦ with_step (positive (atoi (trim_space b))) (parse_range (trim_space a))
]

-- One term of the list.
unfoldable pub parse_term : String → Option Term
parse_term text = let term = trim_space text in if str_eq term "" then none else stepped_range term

-- The terms in turn; a bad term is an error once those before it are expanded.
unfoldable pub expand_terms : ℕ → List String → List ℤ → Result (List ℤ)
expand_terms fuel [] indices = ok indices
expand_terms fuel (text ∷ texts) indices = elim (parse_term text) [
  | none ↦ err other
  | some t ↦ elim (expand fuel t.lo t.hi t.step indices) [
    | err e ↦ err e
    | ok more ↦ expand_terms fuel texts more
  ]
]

-- `sort.Ints`
unfoldable pub insert : ℤ → List ℤ → List ℤ
insert x [] = x ∷ []
insert x (y ∷ ys) = let rest = insert x ys in if ltb_ℤ y x then y ∷ rest else x ∷ y ∷ ys

unfoldable pub sort : List ℤ → List ℤ
unfolding insert
sort [] = []
sort (x ∷ xs) = insert x (sort xs)

-- The throttle, 0 where none is given, and the text before it.
unfoldable pub parse_throttle : String → Option (ℤ × String)
parse_throttle s = elim (cut_last b'%' s) [
  | none ↦ some (pos 0, s)
  | some (a, b) ↦ elim (positive (atoi (trim_space b))) [
    | none ↦ none
    | some n ↦ some (n, trim_space a)
  ]
]

abbrev made : ℤ → List ℤ → Result ArraySpec
made throttle [] = err other
made throttle (n ∷ indices) = ok (record { indices = sort (n ∷ indices); throttle = throttle })

unfoldable pub parse_array_spec : ℕ → String → Result ArraySpec
parse_array_spec fuel text =
    let s = trim_space text in
    if str_eq s "" then err other else elim (parse_throttle s) [
      | none ↦ err other
      | some (throttle, terms) ↦ expand_terms fuel (split b',' terms) [] >>= made throttle
    ]

-- ===== src/Scenarios/Specs.antt =====
-- Texts that the program reads: array specifications, names and states.
use batchq.Shared.{
  ◌≡◌, refl, ℕ, zero, suc, ◌⊎◌, ◌↔◌, Bool, true, false, Option, none, some, List, [], ◌∷◌, String,
  str_eq, map,
}
use batchq.Shared.Int.{ℤ, pos, negsuc}
use batchq.Shared.Result.{ok, err, other, no_fuel}
use batchq.Shared.Text.{trim_space}
use batchq.Job.Status.{queued, failed, status_name}
use batchq.Job.Names.{is_normal, normalize_name, normalize_name-is_normal}
use batchq.Job.ArraySpec.{ArraySpec, expand, parse_array_spec, parse_throttle}
use batchq.Job.ArraySpec.Parse.{Accepts, Refuses, parse_array_spec_exact}
use batchq.Api.{parse_status_list, parse_status_list-names}

array_spec_runs :
    (parse_array_spec 9 " 1-6:2, 9,5 %20"
      ≡ ok (record { indices = pos 1 ∷ pos 3 ∷ pos 5 ∷ pos 9 ∷ []; throttle = pos 20 }))
    × (parse_array_spec 9 "3-1" ≡ err other)
    × (parse_array_spec 9 "1-3%0" ≡ err other)
unfolding parse_array_spec expand parse_throttle trim_space batchq.Job.ArraySpec.expand_terms
    batchq.Job.ArraySpec.parse_term batchq.Job.ArraySpec.stepped_range
    batchq.Job.ArraySpec.parse_range batchq.Job.ArraySpec.add_index batchq.Job.ArraySpec.contains_ℤ
    batchq.Job.ArraySpec.sort batchq.Job.ArraySpec.insert batchq.Shared.Text.split
    batchq.Shared.Text.cut batchq.Shared.Text.cut_last batchq.Shared.Text.atoi
    batchq.Shared.Int.Wrap.wrap batchq.Shared.Int.◌+ℤ◌
array_spec_runs = (refl, refl, refl)

parse_array_spec_exact_example :
    ((parse_array_spec 9 "1-6:2,9,5%20" ≡ err other)
      × Refuses (trim_space "1-6:2,9,5%20") (parse_throttle (trim_space "1-6:2,9,5%20")))
    ⊎ ((spec : ArraySpec) × (parse_array_spec 9 "1-6:2,9,5%20" ≡ ok spec)
        × Accepts "1-6:2,9,5%20" spec)
unfolding parse_array_spec expand parse_throttle trim_space batchq.Job.ArraySpec.expand_terms
    batchq.Job.ArraySpec.parse_term batchq.Job.ArraySpec.stepped_range
    batchq.Job.ArraySpec.parse_range batchq.Job.ArraySpec.add_index batchq.Job.ArraySpec.contains_ℤ
    batchq.Job.ArraySpec.sort batchq.Job.ArraySpec.insert batchq.Shared.Text.split
    batchq.Shared.Text.cut batchq.Shared.Text.cut_last batchq.Shared.Text.atoi
    batchq.Shared.Int.Wrap.wrap batchq.Shared.Int.◌+ℤ◌ batchq.Job.ArraySpec.Parse.spec_fits
    batchq.Job.ArraySpec.Terms.all_fit
parse_array_spec_exact_example = parse_array_spec_exact 8 "1-6:2,9,5%20" refl

abbrev last_index : ℤ
last_index = pos 9223372036854775807

abbrev quarter : ℤ
quarter = pos 4611686018427387904

abbrev all_four : List ℤ
all_four = pos 4611686018427387903 ∷ negsuc 0 ∷ negsuc 4611686018427387904 ∷ last_index ∷ []

-- The last index of 64 bits with the step 2 ^ 62: the four indices follow each other for ever.
goes_round :
    (fuel : ℕ)
    → (expand fuel last_index last_index quarter all_four ≡ err no_fuel)
      × (expand fuel (negsuc 4611686018427387904) last_index quarter all_four ≡ err no_fuel)
      × (expand fuel (negsuc 0) last_index quarter all_four ≡ err no_fuel)
      × (expand fuel (pos 4611686018427387903) last_index quarter all_four ≡ err no_fuel)
unfolding parse_array_spec expand parse_throttle trim_space batchq.Job.ArraySpec.expand_terms
    batchq.Job.ArraySpec.parse_term batchq.Job.ArraySpec.stepped_range
    batchq.Job.ArraySpec.parse_range batchq.Job.ArraySpec.add_index batchq.Job.ArraySpec.contains_ℤ
    batchq.Job.ArraySpec.sort batchq.Job.ArraySpec.insert batchq.Shared.Text.split
    batchq.Shared.Text.cut batchq.Shared.Text.cut_last batchq.Shared.Text.atoi
    batchq.Shared.Int.Wrap.wrap batchq.Shared.Int.◌+ℤ◌
goes_round zero = (refl, refl, refl, refl)
goes_round (suc fuel) = let (a, b, c, d) = goes_round fuel in (b, c, d, a)

never_read : (fuel : ℕ) → expand fuel last_index last_index quarter [] ≡ err no_fuel
unfolding parse_array_spec expand parse_throttle trim_space batchq.Job.ArraySpec.expand_terms
    batchq.Job.ArraySpec.parse_term batchq.Job.ArraySpec.stepped_range
    batchq.Job.ArraySpec.parse_range batchq.Job.ArraySpec.add_index batchq.Job.ArraySpec.contains_ℤ
    batchq.Job.ArraySpec.sort batchq.Job.ArraySpec.insert batchq.Shared.Text.split
    batchq.Shared.Text.cut batchq.Shared.Text.cut_last batchq.Shared.Text.atoi
    batchq.Shared.Int.Wrap.wrap batchq.Shared.Int.◌+ℤ◌
never_read zero = refl
never_read (suc zero) = refl
never_read (suc (suc zero)) = refl
never_read (suc (suc (suc zero))) = refl
never_read (suc (suc (suc (suc fuel)))) = (goes_round fuel).0

normalize_name-is_normal_example :
    (is_normal (normalize_name "my job__1") ≡ true)
    × (is_normal "my job__1" ≡ true → normalize_name "my job__1" ≡ "my job__1")
    × (normalize_name (normalize_name "my job__1") ≡ normalize_name "my job__1")
normalize_name-is_normal_example = normalize_name-is_normal "my job__1"

normalized : normalize_name "my job__1" ≡ "my_job_1"
unfolding normalize_name batchq.Job.Names.mask batchq.Job.Names.collapse batchq.Job.Names.is_safe
    batchq.Job.Names.starts_low
normalized = refl

parse_status_list-names_example :
    (parse_status_list ("FAILED" ∷ "QUEUED" ∷ []) ≡ some (failed ∷ queued ∷ []))
    ↔ (("FAILED" ∷ "QUEUED" ∷ []) ≡ map status_name (failed ∷ queued ∷ []))
parse_status_list-names_example =
    parse_status_list-names ("FAILED" ∷ "QUEUED" ∷ []) (failed ∷ queued ∷ [])

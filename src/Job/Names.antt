-- ===== src/Job/Names.antt =====
-- The names of jobs, resources and scheduler options: `NormalizeName`, `IsReservedResourceName`,
-- `ParseResourceEntry` and `ParseCustomEntry` of jobs/jobdef.go.
use batchq.Shared.{
  ◌≡◌, refl, ◌∙◌, sym, ap, Bool, true, false, not, ◌&&◌, ◌||◌, Option, none, some, arith, String,
  str_eq, Bool-cases, Option-cases, ◌↔◌, inl, inr, leb, ◌==◌, if◌then◌else◌,
}
use Prim.Native.Char.{Char, code}
use batchq.Shared.Text.{trim_space, cut, has_char}

-- [a-zA-Z0-9\-_.]
unfoldable pub is_safe : Char → Bool
is_safe c =
    (leb b'a' (code c) && leb (code c) b'z')
    || (leb b'A' (code c) && leb (code c) b'Z')
    || (leb b'0' (code c) && leb (code c) b'9')
    || (code c == b'-')
    || (code c == b'_')
    || (code c == b'.')

abbrev is_underscore : Char → Bool
is_underscore c = code c == b'_'

-- Every other character becomes an underscore.
unfoldable pub mask : String → String
mask String.[] = ""
mask (String.◌∷◌ c s) = String.◌∷◌ (if is_safe c then c else "_") (mask s)

unfoldable pub starts_low : String → Bool
starts_low String.[] = false
starts_low (String.◌∷◌ c s) = is_underscore c

-- Each run of underscores becomes one.
unfoldable pub collapse : String → String
unfolding starts_low
collapse String.[] = ""
collapse (String.◌∷◌ c s) =
    let rest = collapse s in if is_underscore c && starts_low s then rest else String.◌∷◌ c rest

unfoldable pub normalize_name : String → String
normalize_name name = collapse (mask name)

unfoldable pub is_reserved_resource_name : String → Bool
is_reserved_resource_name name = str_eq name "procs" || str_eq name "mem" || str_eq name "walltime"

-- `strings.Cut` at '=': the halves, and whether there was one.
abbrev halves : String → Option (String × String) → String × String × Bool
halves entry none = (entry, "", false)
halves entry (some (a, b)) = (a, b, true)

abbrev is_bad_name : String → Bool
is_bad_name name = str_eq name "" || has_char b' ' name || has_char b'\t' name

-- The name and the value, or `none` for an error.
unfoldable pub parse_resource_entry : String → Option (String × String)
unfolding is_reserved_resource_name
parse_resource_entry entry =
    let (a, b, found) = halves entry (cut b'=' entry) in
    let name = trim_space a in
    let value = trim_space b in
    if is_bad_name name || is_reserved_resource_name name then none else some (name, value)

unfoldable pub parse_custom_entry : String → Option (String × String)
unfolding is_reserved_resource_name
parse_custom_entry entry =
    let (a, b, found) = halves entry (cut b'=' entry) in
    let key = trim_space a in
    let value = trim_space b in
    if is_bad_name key || (not found || str_eq value "") || is_reserved_resource_name key
    then none
    else some (key, value)

-- Safe characters only, and no two underscores side by side.
unfoldable pub is_normal : String → Bool
unfolding starts_low
is_normal String.[] = true
is_normal (String.◌∷◌ c s) = is_safe c && not (is_underscore c && starts_low s) && is_normal s

starts_low-collapse : (s : String) → starts_low (collapse s) ≡ starts_low s
unfolding starts_low collapse
starts_low-collapse String.[] = refl
starts_low-collapse (String.◌∷◌ c s) = elim (Bool-cases (is_underscore c && starts_low s)) [
  | inl e ↦ rw e (ground (arith, starts_low-collapse s))
  | inr n ↦ rw n refl
]

masked-is_safe : (c : Char) → is_safe (if is_safe c then c else "_") ≡ true
masked-is_safe c = elim (Bool-cases (is_safe c)) [
  | inl e ↦ rw e e
  | inr n ↦ rw n (unfold is_safe in refl)
]

collapse-is_normal :
    (c : Char) (s : String)
    → is_safe c ≡ true
    → is_normal (collapse s) ≡ true
    → is_normal (collapse (String.◌∷◌ c s)) ≡ true
unfolding collapse is_normal
collapse-is_normal c s safe h = elim (Bool-cases (is_underscore c && starts_low s)) [
  | inl e ↦ rw e h
  | inr n ↦ rw (n, is_normal) (rw (starts_low-collapse s, safe, n, h) refl)
]

collapse-mask-is_normal : (s : String) → is_normal (collapse (mask s)) ≡ true
unfolding mask
collapse-mask-is_normal String.[] = unfold collapse is_normal in refl
collapse-mask-is_normal (String.◌∷◌ c s) =
    collapse-is_normal (if is_safe c then c else "_") (mask s) (masked-is_safe c)
      (collapse-mask-is_normal s)

normal-same : (s : String) → is_normal s ≡ true → (mask s ≡ s) × (collapse s ≡ s)
unfolding collapse mask is_normal
normal-same String.[] h = (refl, refl)
normal-same (String.◌∷◌ c s) h =
    let (m, k) = normal-same s (ground (arith, h)) in
    let safe : is_safe c ≡ true = ground (arith, h) in
    let apart : (is_underscore c && starts_low s) ≡ false = ground (arith, h) in
    (rw (safe, m) refl, rw (apart, k) refl)

-- A normalized name has letters, digits, dashes, dots and single underscores only, and a name of that
-- kind is left as it is; so a second normalization changes nothing.
pub normalize_name-is_normal :
    (name : String)
    → (is_normal (normalize_name name) ≡ true)
      × (is_normal name ≡ true → normalize_name name ≡ name)
      × (normalize_name (normalize_name name) ≡ normalize_name name)
unfolding normalize_name
normalize_name-is_normal name =
    let settled = collapse-mask-is_normal name in
    (settled, fixed name, fixed (collapse (mask name)) settled)
  where
    fixed : (s : String) → is_normal s ≡ true → collapse (mask s) ≡ s
    fixed s h = let (m, k) = normal-same s h in rw (m, k) refl

abbrev unless : Bool → String → String → Option (String × String)
unless b name value = if b then none else some (name, value)

both_tests :
    (bad reserved found : Bool) (name v key value : String)
    → (found ≡ false → str_eq v "" ≡ true)
    → (unless (bad || (not found || str_eq v "") || reserved) name v ≡ some (key, value))
      ↔ ((unless (bad || reserved) name v ≡ some (key, value)) × (str_eq value "" ≡ false))
both_tests true reserved found name v key value f = (λ h. cc, λ h. cc)
both_tests false true found name v key value f = elim (Bool-cases (not found || str_eq v "")) [
  | inl e ↦ rw e (λ h. cc, λ h. cc)
  | inr n ↦ rw n (λ h. cc, λ h. cc)
]
both_tests false false found name v key value f = elim (Bool-cases (str_eq v "")) [
  | inl e ↦ elim (Bool-cases found) [
    | inl y ↦ rw (y, e) (λ h. cc, λ (h, n). absurd (no h n e))
    | inr y ↦ rw y (λ h. cc, λ (h, n). absurd (no h n e))
  ]
  | inr n ↦ elim (Bool-cases found) [
    | inl y ↦ rw (y, n) (λ h. (h, ap (λ w. str_eq w "") (sym (same h)) ∙ n), λ (h, _). h)
    | inr y ↦ absurd (ground (arith, f y))
  ]
]
  where
    same : unless false name v ≡ some (key, value) → v ≡ value
    same h = cc

    no : unless false name v ≡ some (key, value) → str_eq value "" ≡ false → str_eq v "" ≡ true → ⊥
    no h n e = let bad : true ≡ false = sym e ∙ ap (λ w. str_eq w "") (same h) ∙ n in cc

-- A scheduler option is accepted just where the same entry is accepted as a resource and its value is
-- not empty; name and value are then the same.
pub parse_custom_entry-resource :
    (entry key value : String)
    → (parse_custom_entry entry ≡ some (key, value))
      ↔ ((parse_resource_entry entry ≡ some (key, value)) × (str_eq value "" ≡ false))
unfolding parse_custom_entry parse_resource_entry is_reserved_resource_name
parse_custom_entry-resource entry key value = elim (Option-cases (cut b'=' entry)) [
  | inl e ↦ rw e (
      both_tests (is_bad_name (trim_space entry)) (is_reserved_resource_name (trim_space entry))
        false (trim_space entry) (trim_space "") key value (λ t. unfold trim_space in refl))
  | inr ((a, b), e) ↦ rw e (
      both_tests (is_bad_name (trim_space a)) (is_reserved_resource_name (trim_space a)) true
        (trim_space a) (trim_space b) key value (λ t. cc))
]

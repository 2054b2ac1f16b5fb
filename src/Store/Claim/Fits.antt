-- ===== src/Store/Claim/Fits.antt =====
-- Whether a job fits a runner: `jobFitsLimits`, `jobFitsResources`, `parseCount`, `labelSubset` and
-- `jobArrayThrottleOK` of storage/sqlite.go.
use batchq.Shared.{
  ℕ, suc, ◌+◌, ◌-◌, ◌%◌, ◌^◌, Bool, true, false, not, ◌&&◌, ◌||◌, Option, none, some, List, [], ◌∷◌,
  map, String, str_eq, select, tally, contains, ltb, leb, ◌==◌, if◌then◌else◌,
}
use Prim.Native.Char.{code}
use Prim.Native.String.{◌++◌ as str_append}
use batchq.Shared.Int.{ℤ, pos, negsuc, ltb_ℤ}
use batchq.Shared.Text.{atoi, trim_space, split, has_char, strip_prefix}
use batchq.Job.Status.{running, is}
use batchq.Store.Db.{JobRow, Detail, Db, job_detail, has_detail}

-- `storage.Limits`; the map of advertised resources is the list of its entries.
pub record Limits : Type 0 where
  pub max_procs : ℤ
  pub max_memory_mb : ℤ
  pub max_walltime_sec : ℤ
  pub resources : List (String × String)

-- A limit that is not positive does not bound.
unfoldable pub within : ℤ → ℤ → Bool
within limit v = not (ltb_ℤ (pos 0) limit && ltb_ℤ limit v)

-- A detail that is missing, or that `Atoi` does not read, counts as 0.
abbrev pub or_zero : Option ℤ → ℤ
or_zero none = pos 0
or_zero (some n) = n

unfoldable pub job_fits_limits : Limits → Db → String → Bool
unfolding within
job_fits_limits limits db id =
    within limits.max_procs (or_zero (atoi (job_detail db id "procs")))
    && (within limits.max_memory_mb (or_zero (atoi (job_detail db id "mem")))
        && within limits.max_walltime_sec (or_zero (atoi (job_detail db id "walltime"))))

abbrev natural : Option ℤ → Option ℕ
natural (some (pos n)) = some n
natural _ = none

unfoldable pub parse_count : String → Option ℕ
parse_count s = natural (atoi s)

-- The non-empty parts between commas.
unfoldable pub labels : String → List String
labels s = select (λ t. not (str_eq t "")) (map trim_space (split b',' s))

all_in : List String → List String → Bool
all_in [] have = true
all_in (t ∷ ts) have = contains have t && all_in ts have

unfoldable pub label_subset : String → String → Bool
unfolding all_in labels
label_subset need adv = str_eq need "" || all_in (labels need) (labels adv)

unfoldable pub lookup : String → List (String × String) → Option String
lookup k [] = none
lookup k ((j, v) ∷ m) = if str_eq j k then some v else lookup k m

-- m[k] = v
put : String → String → List (String × String) → List (String × String)
put k v [] = (k, v) ∷ []
put k v ((j, w) ∷ m) = let rest = (j, w) ∷ put k v m in if str_eq j k then (k, v) ∷ m else rest

count_or_zero : Option String → ℕ
count_or_zero none = 0
count_or_zero (some v) = elim (parse_count v) [ none ↦ 0 | some n ↦ n ]

-- The counts of the variants "name:type" of a resource, added to `n` in 64 bits.
unfoldable pub add_typed : String → List (String × String) → ℕ → ℕ
unfolding count_or_zero
add_typed prefix [] n = n
add_typed prefix ((j, v) ∷ m) n =
    add_typed prefix m (elim (strip_prefix prefix j) [
      | none ↦ n
      | some rest ↦ (n + count_or_zero (some v)) % 2 ^ 64
    ])

-- A bit pattern of 64 bits as the `int` that it stands for.
abbrev signed : ℕ → ℤ
signed n = if ltb n (2 ^ 63) then pos n else negsuc (2 ^ 64 - n - 1)

unfoldable pub available : String → List (String × String) → ℤ
unfolding count_or_zero add_typed
available name advertised =
    let own = count_or_zero (lookup name advertised) in
    signed (if has_char b':' name then own else add_typed (str_append name ":") advertised own)

-- One turn of the loop over the required resources.
unfoldable pub satisfied : List (String × String) → String → String → Bool
satisfied advertised name need = elim (parse_count need) [
  | some n ↦ not (ltb_ℤ (available name advertised) (pos n))
  | none ↦ elim (lookup name advertised) [ none ↦ false | some adv ↦ label_subset need adv ]
]

lower : ℕ → ℕ
lower c = if leb b'A' c && leb c b'Z' then c + 32 else c

-- `key LIKE prefix%`: SQLite's LIKE takes the ASCII letters of both cases for equal.
like_prefix : String → String → Bool
like_prefix String.[] s = true
like_prefix (String.◌∷◌ p ps) String.[] = false
like_prefix (String.◌∷◌ p ps) (String.◌∷◌ c s) =
    lower (code p) == lower (code c) && like_prefix ps s

-- `strings.TrimPrefix(key, "resource.")`
trimmed : String → String
trimmed key = elim (strip_prefix "resource." key) [ none ↦ key | some rest ↦ rest ]

gather : String → List Detail → List (String × String) → List (String × String)
gather id [] m = m
gather id (d ∷ ds) m = gather id ds (
    if str_eq d.job_id id && like_prefix "resource." d.key
    then put (trimmed d.key) d.value m
    else m)

unfoldable pub required : Db → String → List (String × String)
unfolding gather like_prefix lower trimmed put
required db id = gather id db.details []

unfoldable pub all_satisfied : List (String × String) → List (String × String) → Bool
all_satisfied advertised [] = true
all_satisfied advertised ((name, need) ∷ rest) =
    satisfied advertised name need && all_satisfied advertised rest

unfoldable pub job_fits_resources : Limits → Db → String → Bool
job_fits_resources limits db id = all_satisfied limits.resources (required db id)

-- The tasks of an array that are RUNNING.
unfoldable pub running_tasks : Db → String → ℕ
running_tasks db array_id =
    tally (λ (r : JobRow). has_detail db "array_id" array_id r.id && is r.status running) db.jobs

-- A throttle that is no positive number does not bound.
abbrev throttle_admits : Option ℤ → ℕ → Bool
throttle_admits (some (pos (suc n))) tasks = ltb tasks (suc n)
throttle_admits _ tasks = true

unfoldable pub job_array_throttle_ok : Db → String → Bool
job_array_throttle_ok db id =
    let array_id = job_detail db id "array_id" in
    let throttle = job_detail db id "array_throttle" in
    str_eq array_id ""
    || (str_eq throttle "" || throttle_admits (atoi throttle) (running_tasks db array_id))

-- The three tests that `ClaimNextJob` makes of a queued job.
unfoldable pub job_fits : Limits → Db → String → Bool
job_fits limits db id =
    job_fits_limits limits db id && (job_fits_resources limits db id && job_array_throttle_ok db id)

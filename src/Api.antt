-- ===== src/Api.antt =====
-- The words of the wire format, api/status.go.
use batchq.Shared.{
  ◌≡◌, refl, ◌∙◌, sym, ap, ◌↔◌, Option, none, some, List, [], ◌∷◌, map, arith, String, str_eq,
  eq_iff, Bool-cases, inl, inr, if◌then◌else◌,
}
use batchq.Job.Status.{
  StatusCode, unknown, userhold, waiting, queued, proxyqueued, running, canceled, success, failed,
  status_name,
}

abbrev pub status_by_name : List (String × StatusCode)
status_by_name =
    ("UNKNOWN", unknown)
    ∷ ("USERHOLD", userhold)
    ∷ ("WAITING", waiting)
    ∷ ("QUEUED", queued)
    ∷ ("PROXYQUEUED", proxyqueued)
    ∷ ("RUNNING", running)
    ∷ ("CANCELED", canceled)
    ∷ ("SUCCESS", success)
    ∷ ("FAILED", failed)
    ∷ []

-- The map lookup; no name stands twice.
unfoldable pub lookup_status : List (String × StatusCode) → String → Option StatusCode
lookup_status [] name = none
lookup_status ((n, s) ∷ table) name =
    let rest = lookup_status table name in if str_eq n name then some s else rest

-- `ParseStatus`, with `none` for its error.
unfoldable pub parse_status : String → Option StatusCode
unfolding lookup_status
parse_status name = lookup_status status_by_name name

abbrev also : Option StatusCode → Option (List StatusCode) → Option (List StatusCode)
also none rest = none
also (some s) none = none
also (some s) (some ss) = some (s ∷ ss)

-- `ParseStatusList`: the first unknown name ends it.
unfoldable pub parse_status_list : List String → Option (List StatusCode)
unfolding parse_status
parse_status_list [] = some []
parse_status_list (n ∷ names) = also (parse_status n) (parse_status_list names)

also-some :
    (first : Option StatusCode) (rest : Option (List StatusCode)) (ss : List StatusCode)
    → also first rest ≡ some ss
    → (x : StatusCode) × (xs : List StatusCode) × (first ≡ some x)
      × (rest ≡ some xs)
      × (ss ≡ x ∷ xs)
also-some none rest ss h = cc
also-some (some x) none ss h = cc
also-some (some x) (some xs) ss h = (x, xs, refl, refl, ground (arith, h))

pub parse_status-name : (s : StatusCode) → parse_status (status_name s) ≡ some s
unfolding parse_status lookup_status status_name
parse_status-name unknown = refl
parse_status-name userhold = refl
parse_status-name waiting = refl
parse_status-name queued = refl
parse_status-name proxyqueued = refl
parse_status-name running = refl
parse_status-name canceled = refl
parse_status-name success = refl
parse_status-name failed = refl

abbrev Named : List (String × StatusCode) → Type 0
Named [] = Unit
Named ((n, s) ∷ table) = (n ≡ status_name s) × Named table

lookup_status-Named :
    (table : List (String × StatusCode)) (name : String) (s : StatusCode)
    → Named table
    → lookup_status table name ≡ some s
    → name ≡ status_name s
unfolding lookup_status
lookup_status-Named [] name s t h = cc
lookup_status-Named ((n, x) ∷ table) name s (here, t) h = elim (Bool-cases (str_eq n name)) [
  | inl e ↦
      let x_s : x ≡ s = ground (arith, h) in sym ((eq_iff n name).0 e) ∙ here ∙ ap status_name x_s
  | inr off ↦ lookup_status-Named table name s t (ground (arith, h))
]

parse_status-eq :
    (name : String) (s : StatusCode) → parse_status name ≡ some s → name ≡ status_name s
unfolding parse_status status_name
parse_status-eq name s h =
    lookup_status-Named status_by_name name s
      (refl, (refl, (refl, (refl, (refl, (refl, (refl, (refl, (refl, tt))))))))) h

-- A list of words is read as a list of states just where the words are the names of those states, in
-- their order: each state can be written and read again, and no other word is accepted.
pub parse_status_list-names :
    (names : List String) (ss : List StatusCode)
    → (parse_status_list names ≡ some ss) ↔ (names ≡ map status_name ss)
unfolding parse_status_list
parse_status_list-names names ss = (read names ss, λ e. ap parse_status_list e ∙ written ss)
  where
    written : (states : List StatusCode) → parse_status_list (map status_name states) ≡ some states
    written [] = refl
    written (s ∷ states) = rw (parse_status-name s, written states) refl

    read :
        (words : List String) (states : List StatusCode)
        → parse_status_list words ≡ some states
        → words ≡ map status_name states
    read [] [] h = refl
    read [] (s ∷ states) h = cc
    read (w ∷ words) states h =
        let (x, xs, one, rest, e) = also-some (parse_status w) (parse_status_list words) states h in
        rw (e, parse_status-eq w x one, read words xs rest) refl

-- ===== src/Service/Submission.antt =====
-- Submission of one job, service/service.go: `SubmitJob`, `applyPeerIdentity`, `joinUint32`, with
-- `IsUUID` of support/utils.go and the handler's answer.
mod Details
mod Cases
pub mod Laws
use Prim.Native.Char.{code}
use Prim.Native.String
use Prim.Native.String.{◌++◌ as str_append}
use batchq.Shared.{
  ℕ, suc, ◌+◌, Bool, true, false, not, ◌&&◌, ◌||◌, Option, none, some, List, [], ◌∷◌, ◌++◌, map,
  String, str_eq, any, leb, ◌==◌, if◌then◌else◌,
}
use batchq.Shared.Int.{ℤ}
use batchq.Shared.Decimal.{format_uint}
use batchq.Shared.Result.{
  Error, not_found, invalid_state, forbidden, Result, ok, err, bad_request, guard, ◌>>=◌, ◌>>◌,
}
use batchq.Job.Status.{StatusCode, unknown, userhold}
use batchq.Job.Def.{JobDef, JobDefDetail}
use batchq.Job.Names.{normalize_name}
use batchq.Store.Db.{Db, find_row}
use batchq.Store.Submit.{insert_job}
use batchq.Service.Deps.{parse_dep_specs, expand_single_deps}

-- `api.SubmitJobRequest`; the map of details is the list of its entries, one for a key.
pub record SubmitRequest : Type 0 where
  pub job_id : String
  pub name : String
  pub notes : String
  pub priority : ℤ
  pub after_ok : List String
  pub array_deps : List String
  pub input_files : List String
  pub output_files : List String
  pub hold : Bool
  pub details : List (String × String)

is_hex : ℕ → Bool
is_hex c = (leb b'0' c && leb c b'9') || (leb b'a' c && leb c b'f') || (leb b'A' c && leb c b'F')

-- Whether a UUID has a dash at that place.
is_dash_place : ℕ → Bool
is_dash_place i = (i == 8) || (i == 13) || (i == 18) || (i == 23)

uuid_from : ℕ → String → Bool
unfolding is_hex is_dash_place
uuid_from i String.[] = i == 36
uuid_from i (String.◌∷◌ c s) =
    (if is_dash_place i then code c == b'-' else is_hex (code c)) && uuid_from (suc i) s

unfoldable pub is_uuid : String → Bool
unfolding uuid_from
is_uuid s = uuid_from 0 s

-- `support.PeerCreds`, and what `LookupUserByUid` returns: an identity, with an error or without.
pub record PeerCreds : Type 0 where
  pub uid : ℕ
  pub gid : ℕ

pub record UserIdentity : Type 0 where
  pub username : String
  pub gid : ℕ
  pub groups : List ℕ

pub record Lookup : Type 0 where
  pub ident : UserIdentity
  pub failed : Bool

-- m[key] = value, m[key], and delete(m, key).
unfoldable pub set_value : String → String → List (String × String) → List (String × String)
set_value k v [] = (k, v) ∷ []
set_value k v ((j, w) ∷ m) =
    let rest = (j, w) ∷ set_value k v m in if str_eq j k then (k, v) ∷ m else rest

unfoldable pub value_of : String → List (String × String) → Option String
value_of k [] = none
value_of k ((j, v) ∷ m) = let rest = value_of k m in if str_eq j k then some v else rest

unfoldable pub erase_key : String → List (String × String) → List (String × String)
erase_key k [] = []
erase_key k ((j, v) ∷ m) = let rest = erase_key k m in if str_eq j k then rest else (j, v) ∷ rest

unfoldable pub join_uint32 : List ℕ → String → String
join_uint32 [] sep = ""
join_uint32 (v ∷ []) sep = format_uint v
join_uint32 (v ∷ w ∷ vs) sep =
    str_append (format_uint v) (str_append sep (join_uint32 (w ∷ vs) sep))

unfoldable pub put_groups : List ℕ → List (String × String) → List (String × String)
put_groups [] m = erase_key "groups" m
put_groups (g ∷ gs) m = set_value "groups" (join_uint32 (g ∷ gs) ",") m

-- The details after the identity that the kernel attests is written over them.
unfoldable pub apply_peer_identity :
    PeerCreds → Lookup → List (String × String) → List (String × String)
apply_peer_identity peer found m =
    let own = set_value "gid" (format_uint peer.gid) (set_value "uid" (format_uint peer.uid) m) in
    let with_gid = set_value "gid" (format_uint found.ident.gid) own in
    if found.failed
    then (if not (str_eq found.ident.username "") && not (found.ident.gid == 0)
        then with_gid
        else own)
    else put_groups found.ident.groups with_gid

-- The details that the job gets: `lookup` is the name service of the host.
unfoldable pub attested :
    (ℕ → Lookup) → Option PeerCreds → List (String × String) → List (String × String)
attested lookup none m = m
attested lookup (some peer) m = apply_peer_identity peer (lookup peer.uid) m

-- `AfterOk`, and the jobs that the array dependencies stand for.
unfoldable pub all_after_ok : Db → SubmitRequest → Result (List String)
all_after_ok db req = do
  specs ← parse_dep_specs req.array_deps
  extra ← expand_single_deps db specs
  ok (req.after_ok ++ extra)

abbrev pub to_detail : String × String → JobDefDetail
to_detail (k, v) = record { key = k; value = v }

unfoldable pub job_of : String → SubmitRequest → List String → List (String × String) → JobDef
job_of id req after_ok details = record {
  job_id = id;
  status = if req.hold then userhold else unknown;
  priority = req.priority;
  name = normalize_name req.name;
  notes = req.notes;
  after_ok = after_ok;
  details = map to_detail details;
  input_files = req.input_files;
  output_files = req.output_files;
}

abbrev pub is_known : Db → String → Bool
is_known db id = elim (find_row id db.jobs) [ none ↦ false | some r ↦ true ]

-- The answer to a failed insertion: the job of that id, where the client gave the id and a
-- concurrent request has inserted it.
unfoldable pub after_insert : SubmitRequest → String → Db → Result Db → Result String × Db
after_insert req id db (ok db') = (ok id, db')
after_insert req id db (err e) =
    (if not (str_eq req.job_id "") && is_known db id then ok id else err e, db)

unfoldable pub submit_new :
    (now id : String)
    → Result (List String)
    → List (String × String)
    → SubmitRequest
    → Db
    → Result String × Db
submit_new now id (err e) details req db = (err e, db)
submit_new now id (ok after_ok) details req db =
    after_insert req id db (insert_job now (job_of id req after_ok details) db)

-- The id that the job gets: the client's where it gave one, else a fresh one.
unfoldable pub chosen_id : (fresh : String) → SubmitRequest → String
chosen_id fresh req = if str_eq req.job_id "" then fresh else req.job_id

-- The checks before anything is read.
unfoldable pub check_request : SubmitRequest → Result (Unit {0})
check_request req = do
  guard (any (λ (d : String × String). str_eq d.0 "script") req.details) bad_request
  guard (str_eq req.job_id "" || is_uuid req.job_id) bad_request

-- `SubmitJob`: the id of the job that is returned, and the tables. `others` is what other requests
-- write between this one's reads and its insertion.
unfoldable pub submit_job :
    (now fresh : String)
    → (ℕ → Lookup)
    → Option PeerCreds
    → (others : Db → Db) → SubmitRequest
    → Db
    → Result String × Db
submit_job now fresh lookup peer others req db = elim (check_request req) [
  | err e ↦ (err e, others db)
  | ok u ↦
      let id = chosen_id fresh req in
      if not (str_eq req.job_id "") && is_known db id
      then (ok id, others db)
      else submit_new now id (all_after_ok db req) (attested lookup peer req.details) req
          (others db)
]

-- `handleSubmitJob` answers 201, or the status of the error.
unfoldable pub http_status : Error → ℕ
http_status not_found = 404
http_status bad_request = 400
http_status invalid_state = 409
http_status forbidden = 403
http_status _ = 500

unfoldable pub submit_status : Result String → ℕ
submit_status (ok id) = 201
submit_status (err e) = http_status e

-- ===== src/Service/Submission/Laws.antt =====
-- What a submission leaves in the tables, retried or raced by others, and whose job it makes
-- (service/service.go).
use batchq.Shared.{
  ◌≡◌, refl, sym, ◌∙◌, ℕ, ◌<◌, ◌^◌, ◌⊎◌, inl, inr, true, false, Option, some, List, map, String,
  arith, Bool-cases, Option-cases,
}
use batchq.Shared.Decimal.{format_uint, digits_of-format_uint}
use batchq.Shared.Result.{ok, ok-injective}
use batchq.Shared.Text.{trim_space}
use batchq.Store.Db.{JobRow, Db, find_row}
use batchq.Job.Def.{JobDef}
use batchq.Store.Submit
use batchq.Store.Submit.{insert_job, initial_status}
use batchq.Store.Wf.{Wf}
use batchq.Service.Access.{parse_uint32}
use batchq.Service.Access.Laws.{Owns}
use batchq.Service.Submission.{
  SubmitRequest, PeerCreds, Lookup, apply_peer_identity, put_groups, set_value, value_of, attested,
  to_detail, job_of, is_known, chosen_id, submit_job,
}
use batchq.Service.Submission.Details.{
  value_of-set_value, value_of-erase_key, job_detail-insert_job,
}
use batchq.Service.Submission.Cases.{submit_job-cases, insert_job-known}

value_of-put_groups :
    (groups : List ℕ) (m : List (String × String))
    → value_of "uid" (put_groups groups m) ≡ value_of "uid" m
unfolding put_groups
value_of-put_groups List.[] m = value_of-erase_key "groups" "uid" m refl
value_of-put_groups (List.◌∷◌ g gs) m = value_of-set_value "groups" "uid" _ m

own_uid :
    (uid gid : String) (m : List (String × String))
    → value_of "uid" (set_value "gid" gid (set_value "uid" uid m)) ≡ some uid
own_uid uid gid m =
    rw
      (
        value_of-set_value "gid" "uid" gid (set_value "uid" uid m),
        value_of-set_value "uid" "uid" uid m,
      )
      refl

-- Whatever the client sent and the name service answers, the uid is the peer's.
value_of-apply_peer_identity :
    (peer : PeerCreds) (found : Lookup) (m : List (String × String))
    → value_of "uid" (apply_peer_identity peer found m) ≡ some (format_uint peer.uid)
unfolding apply_peer_identity
value_of-apply_peer_identity peer found m = elim (Bool-cases found.failed) [
  | inl e ↦ ground (arith, e, first, second)
  | inr e ↦ rw (e, value_of-put_groups found.ident.groups with_gid) second
]
  where
    own : List (String × String)
    own = set_value "gid" (format_uint peer.gid) (set_value "uid" (format_uint peer.uid) m)

    with_gid : List (String × String)
    with_gid = set_value "gid" (format_uint found.ident.gid) own

    first : value_of "uid" own ≡ some (format_uint peer.uid)
    first = own_uid _ _ m

    second : value_of "uid" with_gid ≡ some (format_uint peer.uid)
    second = rw (value_of-set_value "gid" "uid" (format_uint found.ident.gid) own) first

parse_uint32-format_uint : (n : ℕ) → n < 2 ^ 32 → parse_uint32 (trim_space (format_uint n)) ≡ some n
unfolding parse_uint32
parse_uint32-format_uint n small = ground (arith, digits_of-format_uint n)

known-row :
    (db : Db) (id : String) → is_known db id ≡ true → (r : JobRow) × (find_row id db.jobs ≡ some r)
known-row db id h = elim (Option-cases (find_row id db.jobs)) [
  | inl e ↦ absurd (ground (arith, e, h))
  | inr there ↦ there
]

-- A job that is inserted with a user's number as its uid belongs to that user.
inserted-Owns :
    (now : String) (job : JobDef) (ds : List (String × String)) (uid : ℕ) (db db' : Db)
    → insert_job now job db ≡ ok db'
    → Wf db
    → job.details ≡ map to_detail ds
    → value_of "uid" ds ≡ some (format_uint uid)
    → uid < 2 ^ 32
    → Owns uid job.job_id db' × Wf db'
unfolding batchq.Store.Submit.stored_value
inserted-Owns now job ds uid db db' h w e uid_there small =
    let (free, there, w') = insert_job-known now job db db' h w in
    let (r, found) = known-row db' job.job_id there in
    let stored = job_detail-insert_job now "uid" (format_uint uid) job ds db db' e h uid_there in
    ((r, found, rw stored (parse_uint32-format_uint uid small)), w')

module _ (now fresh : String) (lookup : ℕ → Lookup) (peer : PeerCreds) (others : Db → Db)
    (req : SubmitRequest) (db : Db) (w : Wf (others db)) where
  -- A job that the kernel attests a user for, and whose id is in the tables neither when the
  -- request comes nor when it is inserted, belongs to that user once `SubmitJob` has returned it,
  -- whatever uid the client sent, what the name service answers and what other requests write
  -- meanwhile: that user owns it, as the checks of user actions read it.
  pub submit_job-Owns :
      peer.uid < 2 ^ 32
      → is_known db (chosen_id fresh req) ≡ false
      → is_known (others db) (chosen_id fresh req) ≡ false
      → (id : String) → (submit_job now fresh lookup (some peer) others req db).0 ≡ ok id
      → (id ≡ chosen_id fresh req)
        × Owns peer.uid id (submit_job now fresh lookup (some peer) others req db).1
        × Wf (submit_job now fresh lookup (some peer) others req db).1
  unfolding job_of attested
  submit_job-Owns small new free id made =
      elim (submit_job-cases now fresh lookup (some peer) others req db) [
        | inl (e, inl (failure, failed)) ↦ absurd (ground (arith, failed, made))
        | inl (e, inr (again, known)) ↦ absurd (ground (arith, new, free, known))
        | inr (after_ok, (is_made, inserted)) ↦
            let (owns, w') =
              inserted-Owns now
                (job_of (chosen_id fresh req) req after_ok
                  (attested lookup (some peer) req.details))
                (attested lookup (some peer) req.details) peer.uid (others db) _ inserted w refl
                (value_of-apply_peer_identity peer (lookup peer.uid) req.details) small in
            let same : id ≡ chosen_id fresh req = ok-injective (sym made ∙ is_made) in
            (same, rw same owns, w')
      ]

module _ (now fresh : String) (lookup : ℕ → Lookup) (peer : Option PeerCreds) (req : SubmitRequest)
    (db : Db) where
  abbrev after : Db
  after = (submit_job now fresh lookup peer (λ x. x) req db).1

  -- A submission with nothing else under way leaves the tables, or its job is in them for the
  -- first time.
  pub submit_job-step :
      Wf db
      → Wf after
        × ((after ≡ db)
            ⊎ ((is_known db (chosen_id fresh req) ≡ false)
                × (is_known after (chosen_id fresh req) ≡ true)))
  unfolding job_of
  submit_job-step w = elim (submit_job-cases now fresh lookup peer (λ x. x) req db) [
    | inl (e, answer) ↦ (rw e w, inl e)
    | inr (after_ok, (is_made, inserted)) ↦
        let (free, there, w') = insert_job-known now _ db _ inserted w in (w', inr (free, there))
  ]

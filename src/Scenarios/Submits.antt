-- ===== src/Scenarios/Submits.antt =====
-- Submissions: a request that claims another uid, and one that is sent twice.
use batchq.Shared.{
  ◌≡◌, refl, ℕ, ◌⊎◌, Bool, true, false, Option, none, some, List, [], ◌∷◌, String, str_eq, arith,
}
use batchq.Shared.Int.{pos}
use batchq.Store.Db.{Db, empty_db}
use batchq.Store.Wf.{Wf}
use batchq.Store.Invariant.Start.{empty-Wf}
use batchq.Service.Access.Laws.{Owns}
use batchq.Service.Submission.{
  SubmitRequest, PeerCreds, Lookup, submit_job, chosen_id, is_uuid, apply_peer_identity,
  join_uint32,
}
use batchq.Service.Submission.Laws.{submit_job-Owns}
use batchq.Client.{Attempt, Delivery, client_submit}
use batchq.Client.Once.{submission, client_submit-once}

abbrev uuid : String
uuid = "0123abcd-89ef-4567-89AB-0123456789ab"

abbrev sample_request : SubmitRequest
sample_request = record {
  job_id = uuid;
  name = "n";
  notes = "";
  priority = pos 0;
  after_ok = [];
  array_deps = [];
  input_files = [];
  output_files = [];
  hold = false;
  details = ("script", "true") ∷ ("uid", "0") ∷ [];
}

abbrev caller : PeerCreds
caller = record { uid = 1007; gid = 20 }

abbrev known_user : ℕ → Lookup
known_user uid = record {
  ident = record { username = "u"; gid = 100; groups = 100 ∷ 7 ∷ [] };
  failed = false;
}

abbrev submitted : Db
submitted = (submit_job "t1" "f" known_user (some caller) (λ x. x) sample_request empty_db).1

submit_job-Owns_example : (uuid ≡ uuid) × Owns 1007 uuid submitted × Wf submitted
unfolding chosen_id batchq.Store.Db.find_row submit_job batchq.Service.Submission.check_request
    batchq.Shared.any is_uuid batchq.Service.Submission.submit_new
    batchq.Service.Submission.all_after_ok batchq.Service.Deps.parse_dep_specs
    batchq.Service.Deps.expand_single_deps batchq.Service.Submission.after_insert
    batchq.Store.Submit.insert_job batchq.Service.Submission.job_of
    batchq.Store.Submit.validate_deps batchq.Store.Submit.insert_job_tx
    batchq.Store.Submit.insert_row batchq.Store.Db.status_of batchq.Store.Submit.insert_deps
    batchq.Store.Submit.insert_details batchq.Store.Submit.insert_detail
    batchq.Store.Submit.stored_value batchq.Store.Submit.insert_paths
    batchq.Store.Submit.dedup_non_empty apply_peer_identity batchq.Service.Submission.attested
    batchq.Service.Submission.erase_key join_uint32 batchq.Service.Submission.put_groups
    batchq.Service.Submission.set_value batchq.Shared.Decimal.format_uint
submit_job-Owns_example =
    submit_job-Owns "t1" "f" known_user caller (λ x. x) sample_request empty_db empty-Wf
      (omega arith) refl refl uuid refl

-- The reply to the first send is lost, and the second is answered.
abbrev lost_once : ℕ → Attempt (String × String)
lost_once ℕ.zero = record {
  given = ("t1", "f");
  delivery = Delivery.reply_lost true;
  expires = false;
}
lost_once n = record { given = ("t2", "g"); delivery = Delivery.answered; expires = false }

abbrev after_both : Db
after_both = (client_submit known_user (some caller) sample_request true lost_once empty_db).1

client_submit-once_example :
    (after_both ≡ empty_db)
    ⊎ ((a : String × String) × (after_both
          ≡ (submission known_user (some caller) sample_request a empty_db).1))
client_submit-once_example =
    client_submit-once known_user (some caller) sample_request true lost_once empty_db empty-Wf

-- ===== src/Scenarios/Archives.antt =====
-- Archiving: a job at its end that nothing depends on, and one on which a live job depends.
use batchq.Shared.{◌≡◌, refl, Option, none, some, List, [], ◌∷◌, String, str_eq, if◌then◌else◌}
use batchq.Shared.Text.{has_char, strip_prefix}
use batchq.Shared.Int.{pos}
use batchq.Shared.Result.{ok, err, foreign_key}
use batchq.Job.Status.{StatusCode, failed, waiting}
use batchq.Store.Db.{JobRow, Db, find_row}
use batchq.Service.Archive.{Clock, archive_ordered}

abbrev row : String → StatusCode → (end_time : String) → JobRow
row id s end_time = record {
  id = id;
  status = s;
  priority = pos 0;
  name = "job";
  notes = "";
  submit_time = "t1";
  start_time = "";
  end_time = end_time;
  return_code = pos 1;
}

-- Times that are their own texts; those of the legacy layout begin with "v1 ".
abbrev text_clock : Clock String
text_clock = record {
  zero_time = "";
  is_zero_time = λ t. str_eq t "";
  parse = λ layout s.
      if has_char b'M' layout
      then strip_prefix "v1 " s
      else elim (strip_prefix "v1 " s) [ none ↦ some s | some rest ↦ none ];
  format = λ layout t. t;
}

abbrev alone : Db
alone = record {
  jobs = row "a" failed "v1 t2" ∷ [];
  deps = [];
  running = [];
  details = record { job_id = "a"; key = "script"; value = "true" } ∷ [];
  running_details = [];
  inputs = [];
  outputs = [];
}

abbrev needed : Db
needed = record alone {
  jobs = row "b" waiting "" ∷ row "a" failed "v1 t2" ∷ [];
  deps = record { job_id = "b"; afterok_id = "a" } ∷ [];
}

-- The job that nothing depends on is moved with its script, and its end is written in the current layout.
alone_moved : archive_ordered text_clock ("a" ∷ []) alone ≡ (
  ok tt,
  record alone { jobs = []; details = [] },
  some (record alone { jobs = row "a" failed "t2" ∷ [] }),
)
unfolding archive_ordered has_char strip_prefix batchq.Service.Archive.parse_time
    batchq.Service.Archive.format_time batchq.Service.Archive.scan_times
    batchq.Service.Archive.restored batchq.Service.Archive.move_chunks batchq.Store.Cleanup.chunks
    batchq.Store.Cleanup.chunks_from batchq.Service.Archive.move_chunk batchq.Shared.any
    batchq.Service.Archive.load_jobs find_row batchq.Service.Access.is_terminal
    batchq.Service.Archive.restore_jobs batchq.Service.Archive.remove_batch
    batchq.Store.Cleanup.cleanup_jobs batchq.Store.Cleanup.delete_all_jobs
    batchq.Store.Cleanup.delete_jobs batchq.Store.Cleanup.delete_all_children
    batchq.Store.Cleanup.delete_children batchq.Shared.select batchq.Job.Status.is
    batchq.Service.Archive.entries_of batchq.Service.Archive.paths_of
    batchq.Service.Archive.restore_deps batchq.Service.Archive.restore_entries
    batchq.Service.Archive.restore_job batchq.Service.Archive.restore_paths
    batchq.Service.Archive.restore_row batchq.Shared.contains batchq.Shared.find
    batchq.Store.Db.depends_on batchq.Store.Db.status_of
alone_moved = refl

-- The other stays live, has lost its script, and there is no archive.
needed_stripped :
    archive_ordered text_clock ("a" ∷ []) needed
    ≡ (err foreign_key, record needed { details = [] }, none)
unfolding archive_ordered has_char strip_prefix batchq.Service.Archive.parse_time
    batchq.Service.Archive.format_time batchq.Service.Archive.scan_times
    batchq.Service.Archive.restored batchq.Service.Archive.move_chunks batchq.Store.Cleanup.chunks
    batchq.Store.Cleanup.chunks_from batchq.Service.Archive.move_chunk batchq.Shared.any
    batchq.Service.Archive.load_jobs find_row batchq.Service.Access.is_terminal
    batchq.Service.Archive.restore_jobs batchq.Service.Archive.remove_batch
    batchq.Store.Cleanup.cleanup_jobs batchq.Store.Cleanup.delete_all_jobs
    batchq.Store.Cleanup.delete_jobs batchq.Store.Cleanup.delete_all_children
    batchq.Store.Cleanup.delete_children batchq.Shared.select batchq.Job.Status.is
    batchq.Service.Archive.entries_of batchq.Service.Archive.paths_of
    batchq.Service.Archive.restore_deps batchq.Service.Archive.restore_entries
    batchq.Service.Archive.restore_job batchq.Service.Archive.restore_paths
    batchq.Service.Archive.restore_row batchq.Shared.contains batchq.Shared.find
    batchq.Store.Db.depends_on batchq.Store.Db.status_of
needed_stripped = refl

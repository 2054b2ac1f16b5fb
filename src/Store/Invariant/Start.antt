-- ===== src/Store/Invariant/Start.antt =====
-- The tables before the first request.
use batchq.Shared.{refl, arith}
use batchq.Store.Db.{empty_db, find_row, status_of, depends_on, owner_of}
use batchq.Store.Wf.{Wf}

pub empty-Wf : Wf empty_db
unfolding depends_on find_row status_of owner_of
empty-Wf = record {
  none_doomed = λ job parent dep. ground arith;
  claims = record { idle = λ k h. refl; active = λ k h. ground arith; unknown = λ k h. refl };
  refer = record { at = λ job parent dep. ground arith };
  keys = tt;
}

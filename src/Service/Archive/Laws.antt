-- ===== src/Service/Archive/Laws.antt =====
-- What archiving keeps (service/service.go).
use batchq.Shared.{◌≡◌, ◌⊎◌, ◌<◌, none, some, List, String, contains, if◌then◌else◌}
use batchq.Store.Db.{JobRow, Db, find_row}
use batchq.Service.Archive.{Clock, Move}
use batchq.Service.Archive.Rows.{or_else, rewritten, rewritten_of}

module _ {Time : Type 0} (clock : Clock Time) where
  -- The archive has the row, as it is written there.
  abbrev pub Written : String → JobRow → Db → Type 0
  Written k r archive =
      (r' : JobRow) × (rewritten clock r ≡ some r') × (find_row k archive.jobs ≡ some r')

  -- The row of a job during a move: still live, and in the archive or not; or in the archive, with
  -- something moved.
  abbrev Kept : String → JobRow → Move → Type 0
  Kept k r m =
      ((find_row k m.live.jobs ≡ some r)
        × ((find_row k m.archive.jobs ≡ none) ⊎ Written k r m.archive))
      ⊎ ((find_row k m.live.jobs ≡ none) × Written k r m.archive × (0 < m.count))

  -- What a chunk adds to the archive.
  Filled : List String → Move → Db → Type 0
  Filled chunk m archive =
      (k : String)
      → find_row k archive.jobs
        ≡ or_else (find_row k m.archive.jobs)
            (if contains chunk k then rewritten_of clock (find_row k m.live.jobs) else none)

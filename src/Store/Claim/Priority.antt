-- ===== src/Store/Claim/Priority.antt =====
-- The order in which jobs are offered to runners (storage/sqlite.go, the query of `ClaimNextJob`).
use batchq.Shared.{◌≡◌, true, false, List, [], ◌∷◌, arith, Bool-cases, inl, inr}
use batchq.Shared.Int.{ℤ, ltb_ℤ}
use batchq.Store.Db.{JobRow}
use batchq.Store.Claim.{comes_before, insert_row, sort_rows}

-- The priority of the first row, if there is one, is at most `p`.
abbrev pub HeadAtMost : ℤ → List JobRow → Type 0
HeadAtMost p [] = Unit
HeadAtMost p (r ∷ rows) = ltb_ℤ p r.priority ≡ false

-- No row has a lower priority than the next one.
abbrev pub Descending : List JobRow → Type 0
Descending [] = Unit
Descending (r ∷ rows) = HeadAtMost r.priority rows × Descending rows

ltb_ℤ-asym : (a b : ℤ) → ltb_ℤ a b ≡ true → ltb_ℤ b a ≡ false
ltb_ℤ-asym a b h = ground arith

insert_row-HeadAtMost :
    (p : ℤ) (r : JobRow) (rows : List JobRow)
    → ltb_ℤ p r.priority ≡ false
    → HeadAtMost p rows
    → HeadAtMost p (insert_row r rows)
unfolding insert_row
insert_row-HeadAtMost p r [] new h = new
insert_row-HeadAtMost p r (s ∷ rows) new h = elim (Bool-cases (comes_before r s)) [
  | inl first ↦ rw first new
  | inr later ↦ rw later h
]

insert_row-Descending :
    (r : JobRow) (rows : List JobRow) → Descending rows → Descending (insert_row r rows)
unfolding insert_row
insert_row-Descending r [] d = (tt, tt)
insert_row-Descending r (s ∷ rows) d = elim (Bool-cases (comes_before r s)) [
  | inl first ↦
      rw first ((unfold comes_before in ground (arith, ltb_ℤ-asym s.priority r.priority)), d)
  | inr later ↦
      let behind : ltb_ℤ s.priority r.priority ≡ false = unfold comes_before in ground arith in
      rw later
        (insert_row-HeadAtMost s.priority r rows behind d.0, insert_row-Descending r rows d.1)
]

-- The query's sort puts no job before one of a higher priority that comes next, so runners are offered
-- jobs by descending priority.
pub sort_rows-Descending : (rows : List JobRow) → Descending (sort_rows rows)
unfolding sort_rows
sort_rows-Descending [] = tt
sort_rows-Descending (r ∷ rows) =
    insert_row-Descending r (sort_rows rows) (sort_rows-Descending rows)

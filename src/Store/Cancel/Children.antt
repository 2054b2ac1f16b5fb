-- ===== src/Store/Cancel/Children.antt =====
-- The children that `cascadeCancel` collects for one job of its queue (storage/sqlite.go).
use batchq.Shared.{
  ◌≡◌, true, false, not, ◌&&◌, List, [], ◌∷◌, arith, eq_iff, eq_refl, String, str_eq, contains,
  Bool-cases, inl, inr,
}
use batchq.Store.Db.{Dep, Db, live, depends_on}
use batchq.Store.Cancel.{children}
use batchq.Store.Cancel.Effect.{Distinct}

-- Every child is live, waits for the job by a row of the table, and was not seen before.
pub children_sound :
    (db : Db) (cur : String) (ds : List Dep) (seen : List String) (c : String)
    → contains (children db cur ds seen) c ≡ true
    → (live db c ≡ true) × (depends_on ds c cur ≡ true) × (contains seen c ≡ false)
unfolding children contains depends_on
children_sound db cur [] seen c h = absurd (ground arith)
children_sound db cur (d ∷ ds) seen c h = ground (
  arith,
  eq_iff d.job_id c,
  eq_iff d.afterok_id cur,
  eq_refl c,
  children_sound db cur ds seen c,
  children_sound db cur ds (d.job_id ∷ seen) c,
)

-- Every live job that waits for `cur` and was not seen before is a child.
pub children_complete :
    (db : Db) (cur : String) (ds : List Dep) (seen : List String) (c : String)
    → depends_on ds c cur ≡ true
    → live db c ≡ true
    → contains seen c ≡ false
    → contains (children db cur ds seen) c ≡ true
unfolding children contains depends_on
children_complete db cur [] seen c dep l new = absurd (ground arith)
children_complete db cur (d ∷ ds) seen c dep l new = ground (
  arith,
  eq_iff d.job_id c,
  eq_iff d.afterok_id cur,
  children_complete db cur ds seen c,
  children_complete db cur ds (d.job_id ∷ seen) c,
)

not_again :
    (db : Db) (cur : String) (ds : List Dep) (seen : List String) (c : String)
    → contains (children db cur ds (c ∷ seen)) c ≡ false
not_again db cur ds seen c = elim (Bool-cases (contains (children db cur ds (c ∷ seen)) c)) [
  | inl h ↦ unfold contains in ground (arith, eq_refl c, children_sound db cur ds (c ∷ seen) c h)
  | inr h ↦ h
]

pub children-Distinct :
    (db : Db) (cur : String) (ds : List Dep) (seen : List String)
    → Distinct (children db cur ds seen)
unfolding children
children-Distinct db cur [] seen = tt
children-Distinct db cur (d ∷ ds) seen =
    elim (Bool-cases
      (str_eq d.afterok_id cur && (live db d.job_id && not (contains seen d.job_id)))) [
        | inl e ↦
            rw e (not_again db cur ds seen d.job_id, children-Distinct db cur ds (d.job_id ∷ seen))
        | inr e ↦ rw e (children-Distinct db cur ds seen)
      ]

-- ===== src/Service/Removal/Order.antt =====
-- The order of `planRemoval` (service/service.go): it is found, and each job stands after its dependents.
use batchq.Service.Removal.Behind.{Behind, Behind-snoc}
use batchq.Shared.{
  ◌≡◌, refl, ℕ, zero, suc, ◌<◌, Bool, true, not, Option, some, List, [], ◌∷◌, ◌++◌, arith, String,
  str_eq, eq_iff, eq_refl, contains, contains-append, length, tally-le-length, Bool-cases, inl, inr,
}
use batchq.Store.Db.{Dep}
use batchq.Service.Removal.{
  Marks, mark_of, dependents, Progress, add_all, append_once, add, count_blocked, plan_removal,
}
use batchq.Service.Removal.Marks.{
  is_removable, is_marked, Sound, Kept, Kept-refl, Kept-trans, Kept-removable, removable-candidate,
}
use batchq.Service.Removal.Search.{can_remove_lem, can_remove-yes}
use batchq.Service.Removal.Rank.{rank, rank-dependents, rank-le-length}

module _ (cand : List String) (edges : List Dep) where
  -- The state between two visits: the order holds removable jobs only.
  pub record Ready (marks : Marks) (order : List String) : Type 0 where
    pub sound : Sound cand edges marks
    pub ahead : Behind edges [] order
    pub fit : (k : String) → contains order k ≡ true → is_removable (mark_of marks k) ≡ true

  -- A visit brings in the jobs that the test asks for, and drops none.
  record Settled (asked : String → Bool) (marks : Marks) (order order' : List String) : Type 0 where
    ready : Ready marks order'
    grows : (k : String) → contains order k ≡ true → contains order' k ≡ true
    has : (k : String) → asked k ≡ true → contains order' k ≡ true

  append_once_lem :
      (id : String) (marks : Marks) (order : List String)
      → Ready marks order
      → is_removable (mark_of marks id) ≡ true
      → ((d : String) → contains (dependents edges id) d ≡ true → contains order d ≡ true)
      → (order' : List String) × (append_once id (some (record { marks = marks; order = order }))
          ≡ some (record { marks = marks; order = order' }))
        × Settled (λ k. str_eq id k) marks order order'
  unfolding contains
  append_once_lem id marks order r y deps = elim (Bool-cases (contains order id)) [
    | inl c ↦ (
      order,
      rw c refl,
      record { ready = r; grows = λ k h. h; has = λ k e. rw (← (eq_iff id k).0 e) c },
    )
    | inr new ↦ (
      order ++ id ∷ [],
      rw new refl,
      record {
        ready = record {
          sound = r.sound;
          ahead = Behind-snoc edges [] order id r.ahead new deps;
          fit = λ k h. elim (Bool-cases (str_eq id k)) [
            | inl e ↦ rw (← (eq_iff id k).0 e) y
            | inr n ↦ r.fit k (ground (arith, contains-append order (id ∷ []) k))
          ];
        };
        grows = λ k h. ground (arith, contains-append order (id ∷ []) k);
        has = λ k e. ground (arith, contains-append order (id ∷ []) k);
      },
    )
  ]

  -- Each visit of a job that passes `Can` settles it, and the marks stay.
  abbrev Settles : Marks → (String → Progress → Option Progress) → (String → Type 0) → Type 0
  Settles marks visit Can =
      (d : String) (order : List String)
      → Can d
      → Ready marks order
      → (order' : List String) × (visit d (record { marks = marks; order = order })
          ≡ some (record { marks = marks; order = order' }))
        × Settled (λ k. str_eq d k) marks order order'

  add_all_lem :
      (marks : Marks) (visit : String → Progress → Option Progress) (Can : String → Type 0)
      → Settles marks visit Can
      → (ds : List String) (order : List String) → ((d : String) → contains ds d ≡ true → Can d)
      → Ready marks order
      → (order' : List String) × (add_all visit ds (record { marks = marks; order = order })
          ≡ some (record { marks = marks; order = order' }))
        × Settled (contains ds) marks order order'
  unfolding contains add_all
  add_all_lem marks visit Can settles [] order cans r =
      (order, refl, record { ready = r; grows = λ k h. h; has = λ k e. absurd (ground arith) })
  add_all_lem marks visit Can settles (d ∷ ds) order cans r =
      let (one, e, v) = settles d order (cans d (rw eq_refl refl)) r in
      let (order', e', w) =
        add_all_lem marks visit Can settles ds one (λ k h. cans k (ground arith)) v.ready in
      (
        order',
        rw (e, add_all) e',
        record {
          ready = w.ready;
          grows = λ k h. w.grows k (v.grows k h);
          has = λ k h. ground (arith, v.has k, w.grows k, w.has k);
        },
      )

  -- Removable, at a rank below n.
  abbrev RemovableBelow : Marks → ℕ → String → Type 0
  RemovableBelow marks n id = (is_removable (mark_of marks id) ≡ true) × (rank marks id < n)

  module _ (depth : ℕ) where
    -- The dependents of a removable job, and then the job.
    finish :
        (fuel : ℕ) (id : String) (marks : Marks) (order : List String)
        → Settles marks (λ d p. add cand edges (suc depth) fuel d p) (RemovableBelow marks fuel)
        → RemovableBelow marks (suc fuel) id
        → Ready marks order
        → (order' : List String) × (append_once id (
              add_all
                (λ d p. add cand edges (suc depth) fuel d p)
                (dependents edges id)
                (record { marks = marks; order = order }))
            ≡ some (record { marks = marks; order = order' }))
          × Settled (λ k. str_eq id k) marks order order'
    finish fuel id marks order settles (y, low) r =
        let (one, e, v) =
          add_all_lem marks (λ d p. add cand edges (suc depth) fuel d p) (RemovableBelow marks fuel)
            settles (dependents edges id) order
            (λ d c.
              let (yd, lt) = rank-dependents cand edges marks id d r.sound y c in (yd, omega arith))
            r in
        let (order', e', w) = append_once_lem id marks one v.ready y v.has in
        (
          order',
          rw e e',
          record { ready = w.ready; grows = λ k h. w.grows k (v.grows k h); has = w.has },
        )

    add_settled :
        (fuel : ℕ) (marks : Marks)
        → Settles marks (λ d p. add cand edges (suc depth) fuel d p) (RemovableBelow marks fuel)
    unfolding add
    add_settled zero marks id order (y, low) r = absurd (omega arith)
    add_settled (suc fuel) marks id order below r = elim (Bool-cases (contains order id)) [
      | inl c ↦ (
        order,
        rw (c, add) refl,
        record { ready = r; grows = λ k h. h; has = λ k e. rw (← (eq_iff id k).0 e) c },
      )
      | inr new ↦
          let (order', e, v) = finish fuel id marks order (add_settled fuel marks) below r in
          (order', rw (new, can_remove-yes cand edges depth id marks below.0, add) e, v)
    ]

  -- A visit of a candidate, its marks not known before.
  record Tried (marks marks' : Marks) (order order' : List String) : Type 0 where
    kept : Kept marks marks'
    ready : Ready marks' order'
    grows : (k : String) → contains order k ≡ true → contains order' k ≡ true

  abbrev most : ℕ
  most = suc (length cand)

  add-Tried :
      (id : String) (marks : Marks) (order : List String)
      → Ready marks order
      → (marks' : Marks) × (order' : List String) × (add cand edges most most id
            (record { marks = marks; order = order })
          ≡ some (record { marks = marks'; order = order' }))
        × Tried marks marks' order order'
  unfolding add
  add-Tried id marks order r = elim (Bool-cases (contains order id)) [
    | inl c ↦ (
      marks,
      order,
      rw (c, add) refl,
      record { kept = Kept-refl marks; ready = r; grows = λ k h. h },
    )
    | inr new ↦
        let few = tally-le-length (λ c. not (is_marked (mark_of marks c))) cand in
        let (answer, one, e, v) = can_remove_lem cand edges most id marks (omega arith) r.sound in
        let still : Ready one order = record {
          sound = v.sound;
          ahead = r.ahead;
          fit = λ k h. Kept-removable marks one k v.kept (r.fit k h);
        } in
        elim (Bool-cases answer) [
          | inr n ↦ (
            one,
            order,
            rw (new, e, n, add) refl,
            record { kept = v.kept; ready = still; grows = λ k h. h },
          )
          | inl y ↦
              let low = rank-le-length cand edges one id v.sound (v.yes y) in
              let (order', e', w) =
                finish (length cand) (length cand) id one order
                  (add_settled (length cand) (length cand) one) (v.yes y, omega arith) still in
              (
                one,
                order',
                rw (new, e, y, add) e',
                record { kept = v.kept; ready = w.ready; grows = w.grows },
              )
        ]
  ]

  add_all-Tried :
      (ids : List String) (marks : Marks) (order : List String)
      → Ready marks order
      → (marks' : Marks) × (order' : List String) × (add_all
            (λ id p. add cand edges most most id p)
            ids
            (record { marks = marks; order = order })
          ≡ some (record { marks = marks'; order = order' }))
        × Tried marks marks' order order'
  unfolding add_all
  add_all-Tried [] marks order r =
      (marks, order, refl, record { kept = Kept-refl marks; ready = r; grows = λ k h. h })
  add_all-Tried (id ∷ ids) marks order r =
      let (one, order1, e, v) = add-Tried id marks order r in
      let (marks', order', e', w) = add_all-Tried ids one order1 v.ready in
      (
        marks',
        order',
        rw (e, add_all) e',
        record {
          kept = Kept-trans marks one marks' v.kept w.kept;
          ready = w.ready;
          grows = λ k h. w.grows k (v.grows k h);
        },
      )

-- With one unit of fuel more than there are candidates the search for an order ends. The order holds
-- candidates only, each of them once, and each job that depends on one of its jobs stands before that
-- job.
pub plan_removal_exact :
    (cand : List String) (edges : List Dep)
    → (order : List String) × (stay : ℕ) × (plan_removal (suc (length cand)) cand edges
        ≡ some (order, stay))
      × Behind edges [] order
      × ((k : String) → contains order k ≡ true → contains cand k ≡ true)
unfolding plan_removal contains
plan_removal_exact cand edges =
    let start : Ready cand edges [] [] = record { sound = tt; ahead = tt; fit = λ k h. cc } in
    let (marks, order, e, v) = add_all-Tried cand edges cand [] [] start in
    (
      order,
      count_blocked cand marks,
      rw (e, plan_removal) refl,
      v.ready.ahead,
      λ k h. removable-candidate cand edges marks k v.ready.sound (v.ready.fit k h),
    )

-- ===== src/Runner/AfterOk/Lists.antt =====
-- The lists of ids and of tasks on the way to SLURM (runner/slurm.go).
use batchq.Shared.{
  ◌≡◌, refl, ◌∙◌, ◌⊎◌, inl, inr, true, false, ◌||◌, List, [], ◌∷◌, map, arith, String, str_eq,
  eq_iff, eq_refl, select, contains, contains-append, Bool-cases,
}
use batchq.Shared.Int.{ltb_ℤ}
use batchq.Runner.AfterOk.{
  TaskDep, first_seen, insert_task, sort_tasks, group_names, add_id, add_ids, group_of, add_groups,
}

-- The task stands in the list.
abbrev pub In : TaskDep → List TaskDep → Type 0
In t [] = ⊥
In t (x ∷ xs) = (t ≡ x) ⊎ In t xs

add_id-keeps :
    (ids : List String) (s k : String) → contains ids k ≡ true → contains (add_id ids s) k ≡ true
unfolding add_id
add_id-keeps ids s k h = elim (Bool-cases (str_eq s "" || contains ids s)) [
  | inl e ↦ rw e h
  | inr n ↦ rw n (contains-append ids (s ∷ []) k ∙ rw h refl)
]

add_id-has :
    (ids : List String) (s : String) → str_eq s "" ≡ false → contains (add_id ids s) s ≡ true
unfolding add_id contains
add_id-has ids s h = elim (Bool-cases (contains ids s)) [
  | inl e ↦ rw (h, e) e
  | inr n ↦ rw (h, n) (contains-append ids (s ∷ []) s ∙ rw (n, contains, eq_refl) refl)
]

add_ids-keeps :
    (ids more : List String) (k : String)
    → contains ids k ≡ true
    → contains (add_ids ids more) k ≡ true
unfolding add_ids
add_ids-keeps ids [] k h = h
add_ids-keeps ids (s ∷ more) k h = add_ids-keeps (add_id ids s) more k (add_id-keeps ids s k h)

pub add_ids-has :
    (ids more : List String) (k : String)
    → str_eq k "" ≡ false
    → contains more k ≡ true
    → contains (add_ids ids more) k ≡ true
unfolding add_ids contains
add_ids-has ids [] k some_text h = cc
add_ids-has ids (s ∷ more) k some_text h = elim (Bool-cases (str_eq s k)) [
  | inl e ↦
      let same : s ≡ k = (eq_iff s k).0 e in
      add_ids-keeps (add_id ids s) more k (rw same (add_id-has ids k some_text))
  | inr n ↦ add_ids-has (add_id ids s) more k some_text (ground arith)
]

pub add_groups-keeps :
    (tasks : List TaskDep) (parents ids : List String) (k : String)
    → contains ids k ≡ true
    → contains (add_groups tasks parents ids) k ≡ true
unfolding add_groups
add_groups-keeps tasks [] ids k h = h
add_groups-keeps tasks (p ∷ parents) ids k h =
    add_groups-keeps tasks parents _ k (add_ids-keeps ids (group_names (group_of tasks p)) k h)

pub add_groups-has :
    (tasks : List TaskDep) (parents ids : List String) (p k : String)
    → str_eq k "" ≡ false
    → contains parents p ≡ true
    → contains (group_names (group_of tasks p)) k ≡ true
    → contains (add_groups tasks parents ids) k ≡ true
unfolding add_groups contains
add_groups-has tasks [] ids p k some_text c h = cc
add_groups-has tasks (q ∷ parents) ids p k some_text c h = elim (Bool-cases (str_eq q p)) [
  | inl e ↦
      let same : q ≡ p = (eq_iff q p).0 e in
      add_groups-keeps tasks parents _ k
        (rw same (add_ids-has ids (group_names (group_of tasks p)) k some_text h))
  | inr n ↦ add_groups-has tasks parents _ p k some_text (ground arith) h
]

first_seen-old :
    (seen : List String) (x : TaskDep) (ts : List TaskDep)
    → contains seen x.parent ≡ true
    → first_seen seen (x ∷ ts) ≡ first_seen seen ts
unfolding first_seen
first_seen-old seen x ts e = rw (e, first_seen) refl

first_seen-new :
    (seen : List String) (x : TaskDep) (ts : List TaskDep)
    → contains seen x.parent ≡ false
    → first_seen seen (x ∷ ts) ≡ x.parent ∷ first_seen (x.parent ∷ seen) ts
unfolding first_seen
first_seen-new seen x ts e = rw (e, first_seen) refl

contains-cons :
    (x : String) (xs : List String) (k : String)
    → contains (x ∷ xs) k ≡ (str_eq x k || contains xs k)
unfolding contains
contains-cons x xs k = refl

pub first_seen-has :
    (seen : List String) (ts : List TaskDep) (t : TaskDep)
    → In t ts
    → (contains seen t.parent || contains (first_seen seen ts) t.parent) ≡ true
first_seen-has seen [] t h = absurd h
first_seen-has seen (x ∷ ts) t (inl same) = elim (Bool-cases (contains seen x.parent)) [
  | inl e ↦ rw (same, e) refl
  | inr n ↦ rw (same, first_seen-new seen x ts n, n) (unfold contains in rw eq_refl refl)
]
first_seen-has seen (x ∷ ts) t (inr later) = elim (Bool-cases (contains seen x.parent)) [
  | inl e ↦ rw (first_seen-old seen x ts e) (first_seen-has seen ts t later)
  | inr n ↦ rw (first_seen-new seen x ts n) (
      ground (
        arith,
        first_seen-has (x.parent ∷ seen) ts t later,
        contains-cons x.parent seen t.parent,
        contains-cons x.parent (first_seen (x.parent ∷ seen) ts) t.parent,
      ))
]

insert_task-In : (t x : TaskDep) (xs : List TaskDep) → (t ≡ x) ⊎ In t xs → In t (insert_task x xs)
unfolding insert_task
insert_task-In t x [] h = h
insert_task-In t x (y ∷ ys) h = elim (Bool-cases (ltb_ℤ y.index x.index)) [
  | inr n ↦ rw n h
  | inl e ↦ rw e (elim h [
    | inl t_x ↦ inr (insert_task-In t x ys (inl t_x))
    | inr (inl t_y) ↦ inl t_y
    | inr (inr deeper) ↦ inr (insert_task-In t x ys (inr deeper))
  ])
]

pub sort_tasks-In : (t : TaskDep) (xs : List TaskDep) → In t xs → In t (sort_tasks xs)
unfolding sort_tasks
sort_tasks-In t [] h = h
sort_tasks-In t (x ∷ xs) (inl same) = insert_task-In t x (sort_tasks xs) (inl same)
sort_tasks-In t (x ∷ xs) (inr later) =
    insert_task-In t x (sort_tasks xs) (inr (sort_tasks-In t xs later))

pub group_of-In : (t : TaskDep) (xs : List TaskDep) → In t xs → In t (group_of xs t.parent)
unfolding group_of select
group_of-In t [] h = h
group_of-In t (x ∷ xs) (inl same) = rw (← same) (rw eq_refl (inl refl))
group_of-In t (x ∷ xs) (inr later) = elim (Bool-cases (str_eq x.parent t.parent)) [
  | inl e ↦ rw e (inr (group_of-In t xs later))
  | inr n ↦ rw n (group_of-In t xs later)
]

pub map-In :
    (f : TaskDep → String) (t : TaskDep) (xs : List TaskDep)
    → In t xs
    → contains (map f xs) (f t) ≡ true
unfolding contains
map-In f t [] h = absurd h
map-In f t (x ∷ xs) (inl same) = rw same (rw eq_refl refl)
map-In f t (x ∷ xs) (inr later) = rw (map-In f t xs later) (ground arith)

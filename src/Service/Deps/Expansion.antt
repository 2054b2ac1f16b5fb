-- ===== src/Service/Deps/Expansion.antt =====
-- What a job that names arrays waits for (service/service.go).
use batchq.Shared.{
  ◌≡◌, refl, Bool, true, not, ◌&&◌, none, some, List, [], ◌∷◌, ◌++◌, map, length, arith, String,
  str_eq, eq_iff, any, contains, contains-append, ◌⊎◌, Option-cases, inl, inr, ◌==◌,
}
use batchq.Shared.Int.{ℤ}
use batchq.Shared.Result.{
  ok, err, bad_request, guard, >>=-eq-ok, >>-eq-ok, guard-eq-ok, ok-injective,
}
use batchq.Store.Db.{Db}
use batchq.Service.Deps.{
  DepKind, DepSpec, afterok, aftercorr, ArrayMember, split_task_addr, find_array_members,
  target_ids, expand_single_deps, eq_ℤ, by_index, pair_tasks, spec_edges,
}

-- A job of the list of members.
abbrev pub is_member : List ArrayMember → String → Bool
is_member ms k = any (λ (m : ArrayMember). str_eq m.id k) ms

-- A job of the list of members, with that index.
abbrev pub is_task : List ArrayMember → String → ℤ → Bool
is_task ms k idx = any (λ (m : ArrayMember). str_eq m.id k && eq_ℤ m.index idx) ms

member_ids :
    (ms : List ArrayMember) (k : String)
    → contains (map (λ (m : ArrayMember). m.id) ms) k ≡ is_member ms k
unfolding contains any
member_ids [] k = refl
member_ids (m ∷ ms) k = ground (arith, member_ids ms k)

target_ids-members :
    (db : Db) (target : String) (ids : List String) (k : String)
    → target_ids db target ≡ ok ids
    → split_task_addr target ≡ none
    → is_member (find_array_members db target) k ≡ true
    → contains ids k ≡ true
unfolding target_ids any contains
target_ids-members db target ids k h plain m =
    go (find_array_members db target) (rw (plain, target_ids) at h) m
  where
    go :
        (ms : List ArrayMember)
        → (elim ms [
          | [] ↦ ok (target ∷ [])
          | x ∷ xs ↦ ok (x.id ∷ map (λ (y : ArrayMember). y.id) xs)
        ])
          ≡ ok ids
        → is_member ms k ≡ true
        → contains ids k ≡ true
    go [] e m = absurd (ground arith)
    go (x ∷ xs) e m =
        let same : x.id ∷ map (λ (y : ArrayMember). y.id) xs ≡ ids = ok-injective e in
        rw (← same) (ground (arith, member_ids xs k))

kind_cases : (kind : DepKind) → (kind ≡ afterok) ⊎ (kind ≡ aftercorr)
kind_cases afterok = inl refl
kind_cases aftercorr = inr refl

-- The first specification and the others, where the expansion succeeds.
expand_single_deps-step :
    (db : Db) (sp : DepSpec) (specs : List DepSpec) (ids : List String)
    → expand_single_deps db (sp ∷ specs) ≡ ok ids
    → (here : List String) × (rest : List String) × (target_ids db sp.target ≡ ok here)
      × (expand_single_deps db specs ≡ ok rest)
      × (here ++ rest ≡ ids)
unfolding expand_single_deps
expand_single_deps-step db sp specs ids h = elim (kind_cases sp.kind) [
  | inr e ↦ absurd (refused (rw (e, expand_single_deps) at h))
  | inl e ↦
      let (here, is_here, h1) =
        >>=-eq-ok (target_ids db sp.target) _ (rw (e, expand_single_deps) at h) in
      let (rest, is_rest, h2) = >>=-eq-ok (expand_single_deps db specs) _ h1 in
      (here, rest, is_here, is_rest, ok-injective h2)
]
  where
    refused : err bad_request ≡ ok ids → ⊥
    refused h = cc

-- Where the dependencies of a single job are expanded with no error, it waits for every task of each
-- array that it names, by a target that is no task's address.
pub expand_single_deps-members :
    (db : Db) (before : List DepSpec) (sp : DepSpec) (after : List DepSpec) (ids : List String)
    (k : String)
    → expand_single_deps db (before ++ sp ∷ after) ≡ ok ids
    → split_task_addr sp.target ≡ none
    → is_member (find_array_members db sp.target) k ≡ true
    → contains ids k ≡ true
expand_single_deps-members db [] sp after ids k h plain m =
    let (here, rest, is_here, is_rest, same) = expand_single_deps-step db sp after ids h in
    rw (← same) (
      ground (
        arith,
        contains-append here rest k,
        target_ids-members db sp.target here k is_here plain m,
      ))
expand_single_deps-members db (first ∷ before) sp after ids k h plain m =
    let (here, rest, is_here, is_rest, same) =
      expand_single_deps-step db first (before ++ sp ∷ after) ids h in
    rw (← same) (
      ground (
        arith,
        contains-append here rest k,
        expand_single_deps-members db before sp after rest k is_rest plain m,
      ))

by_index-is_task :
    (ms : List ArrayMember) (idx : ℤ) (k : String)
    → by_index ms idx ≡ some k
    → is_task ms k idx ≡ true
unfolding by_index any
by_index-is_task [] idx k h = cc
by_index-is_task (m ∷ ms) idx k h =
    ground (arith, by_index-is_task ms idx k, eq_iff m.id k, Option-cases (by_index ms idx))

-- Each task of the new array waits for the task of the other array with its own index, and for no
-- other job.
abbrev pub Paired : List ArrayMember → List ℤ → List (ℤ × List String) → Type 0
Paired ms [] [] = Unit
Paired ms [] (e ∷ edges) = ⊥
Paired ms (idx ∷ indices) [] = ⊥
Paired ms (idx ∷ indices) ((at, ids) ∷ edges) =
    (at ≡ idx)
    × ((k : String) × (ids ≡ k ∷ []) × (is_task ms k idx ≡ true))
    × Paired ms indices edges

pair_tasks-Paired :
    (ms : List ArrayMember) (indices : List ℤ) (edges : List (ℤ × List String))
    → pair_tasks ms indices ≡ ok edges
    → Paired ms indices edges
unfolding pair_tasks
pair_tasks-Paired ms [] edges h = let same : [] ≡ edges = ok-injective h in rw (← same) tt
pair_tasks-Paired ms (idx ∷ indices) edges h = elim (Option-cases (by_index ms idx)) [
  | inl e ↦ absurd (ground arith)
  | inr (k, e) ↦
      let (rest, is_rest, h2) = >>=-eq-ok (pair_tasks ms indices) _ (rw (e, pair_tasks) at h) in
      let same : (idx, k ∷ []) ∷ rest ≡ edges = ok-injective h2 in
      rw (← same)
        (refl, (k, refl, by_index-is_task ms idx k e), pair_tasks-Paired ms indices rest is_rest)
]

-- A specification `aftercorr` that is accepted names an array with as many tasks as the new one, and
-- pairs the tasks of both by their indices.
pub spec_edges-Paired :
    (db : Db) (indices : List ℤ) (target : String) (edges : List (ℤ × List String))
    → spec_edges db indices (record { kind = aftercorr; target = target }) ≡ ok edges
    → (length (find_array_members db target) ≡ length indices)
      × Paired (find_array_members db target) indices edges
unfolding spec_edges
spec_edges-Paired db indices target edges h = elim (Option-cases (split_task_addr target)) [
  | inr (addr, e) ↦ absurd (ground arith)
  | inl e ↦
      let ms = find_array_members db target in
      let (known, h1) =
        >>-eq-ok (guard (not (length ms == 0)) bad_request) _ (rw (e, spec_edges) at h) in
      let (same_size, h2) = >>-eq-ok (guard (length ms == length indices) bad_request) _ h1 in
      (
        ground (arith, guard-eq-ok (length ms == length indices) bad_request same_size),
        pair_tasks-Paired ms indices edges h2,
      )
]

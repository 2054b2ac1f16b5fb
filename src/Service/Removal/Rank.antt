-- ===== src/Service/Removal/Rank.antt =====
-- The depth of the search for an order in `planRemoval` (service/service.go).
use batchq.Shared.{
  ◌≡◌, refl, ap, ℕ, suc, ◌≤◌, ◌<◌, true, false, some, List, [], ◌∷◌, arith, String, str_eq, eq_iff,
  eq_refl, contains, tally, length, tally-le-length, Bool-cases, inl, inr, if◌then◌else◌,
}
use batchq.Store.Db.{Dep}
use batchq.Service.Removal.{Mark, visiting, removable, blocked, Marks, mark_of, dependents}
use batchq.Service.Removal.Marks.{is_removable, Sound, tally_mono, tally_strict}

-- The entries that say `removable`.
removables : Marks → ℕ
removables [] = 0
removables ((j, removable) ∷ marks) = suc (removables marks)
removables ((j, visiting) ∷ marks) = removables marks
removables ((j, blocked) ∷ marks) = removables marks

-- How many of them stand at the job's newest entry and below.
unfoldable pub rank : Marks → String → ℕ
unfolding removables
rank [] id = 0
rank ((j, m) ∷ marks) id =
    let older = rank marks id in if str_eq j id then suc (removables marks) else older

removables_mono :
    (j : String) (m : Mark) (marks : Marks) → removables marks ≤ removables ((j, m) ∷ marks)
unfolding removables
removables_mono j removable marks = omega arith
removables_mono j visiting marks = omega arith
removables_mono j blocked marks = omega arith

rank-le :
    (marks : Marks) (d : String)
    → is_removable (mark_of marks d) ≡ true
    → rank marks d ≤ removables marks
unfolding rank mark_of
rank-le [] d h = omega arith
rank-le ((j, m) ∷ marks) d h = elim (Bool-cases (str_eq j d)) [
  | inl e ↦ rw e (top m (rw (e, mark_of) at h))
  | inr n ↦ rw n (below (rank-le marks d (rw (n, mark_of) at h)))
]
  where
    top :
        (m' : Mark)
        → is_removable (some m') ≡ true
        → suc (removables marks) ≤ removables ((j, m') ∷ marks)
    top removable t = unfold removables in omega arith
    top visiting t = cc
    top blocked t = cc

    below : rank marks d ≤ removables marks → rank marks d ≤ removables ((j, m) ∷ marks)
    below le = omega (arith, removables_mono j m marks)

distinct :
    (j d : String) (marks : Marks)
    → is_removable (mark_of marks j) ≡ false
    → is_removable (mark_of marks d) ≡ true
    → str_eq j d ≡ false
distinct j d marks low y = elim (Bool-cases (str_eq j d)) [
  | inr n ↦ n
  | inl e ↦
      let same : j ≡ d = (eq_iff j d).0 e in
      absurd (ground (arith, ap (λ k. is_removable (mark_of marks k)) same))
]

module _ (cand : List String) (edges : List Dep) where
  -- The dependents of a removable job are removable, and further down.
  pub rank-dependents :
      (marks : Marks) (id d : String)
      → Sound cand edges marks
      → is_removable (mark_of marks id) ≡ true
      → contains (dependents edges id) d ≡ true
      → (is_removable (mark_of marks d) ≡ true) × (rank marks d < rank marks id)
  unfolding rank mark_of
  rank-dependents [] id d s h c = cc
  rank-dependents ((j, m) ∷ marks) id d s h c = elim (Bool-cases (str_eq j id)) [
    | inl e ↦ rw e (top m s ((eq_iff j id).0 e) (rw (e, mark_of) at h))
    | inr n ↦ rw n (deeper (rank-dependents marks id d s.2 (rw (n, mark_of) at h) c))
  ]
    where
      deeper :
          {n : ℕ}
          → (is_removable (mark_of marks d) ≡ true) × (rank marks d < n)
          → (is_removable (if str_eq j d then some m else mark_of marks d) ≡ true)
            × ((if str_eq j d then suc (removables marks) else rank marks d) < n)
      deeper (y, lt) = rw (distinct j d marks s.0 y) (y, lt)

      top :
          (m' : Mark)
          → Sound cand edges ((j, m') ∷ marks)
          → j ≡ id
          → is_removable (some m') ≡ true
          → (is_removable (if str_eq j d then some m else mark_of marks d) ≡ true)
            × ((if str_eq j d then suc (removables marks) else rank marks d)
                < suc (removables marks))
      top removable (low, (_, deps), _) id_j t =
          let y : is_removable (mark_of marks d) ≡ true = deps d (rw id_j c) in
          deeper (y, omega (arith, rank-le marks d y))
      top visiting s' id_j t = cc
      top blocked s' id_j t = cc

  removables-le-tally :
      (marks : Marks)
      → Sound cand edges marks
      → removables marks ≤ tally (λ c. is_removable (mark_of marks c)) cand
  unfolding removables
  removables-le-tally [] s = omega arith
  removables-le-tally ((j, removable) ∷ marks) (low, (c, deps), s) = omega (
    arith,
    removables-le-tally marks s,
    tally_strict (λ c. is_removable (mark_of marks c))
        (λ c. is_removable (mark_of ((j, removable) ∷ marks) c)) cand j
        (λ k e. unfold mark_of in ground (arith, eq_iff j k)) c (unfold mark_of in rw eq_refl refl)
        low,
  )
  removables-le-tally ((j, visiting) ∷ marks) (low, t, s) = omega (
    arith,
    removables-le-tally marks s,
    tally_mono (λ c. is_removable (mark_of marks c))
        (λ c. is_removable (mark_of ((j, visiting) ∷ marks) c)) cand
        (λ k e. unfold mark_of in ground (arith, eq_iff j k)),
  )
  removables-le-tally ((j, blocked) ∷ marks) (low, t, s) = omega (
    arith,
    removables-le-tally marks s,
    tally_mono (λ c. is_removable (mark_of marks c))
        (λ c. is_removable (mark_of ((j, blocked) ∷ marks) c)) cand
        (λ k e. unfold mark_of in ground (arith, eq_iff j k)),
  )

  -- No rank is above the number of candidates.
  pub rank-le-length :
      (marks : Marks) (id : String)
      → Sound cand edges marks
      → is_removable (mark_of marks id) ≡ true
      → rank marks id ≤ length cand
  rank-le-length marks id s h = omega (
    arith,
    rank-le marks id h,
    removables-le-tally marks s,
    tally-le-length (λ c. is_removable (mark_of marks c)) cand,
  )

-- ===== src/Service/Removal/Behind.antt =====
-- What it is for jobs to stand in order in a plan of removal (service/service.go, `planRemoval`).
use batchq.Shared.{
  ◌≡◌, ◌∙◌, true, false, List, [], ◌∷◌, ◌++◌, arith, String, str_eq, eq_iff, contains,
  contains-append, Bool-cases, inl, inr,
}
use batchq.Store.Db.{Dep}
use batchq.Service.Removal.{dependents}

-- Behind the jobs `seen`, each job of `ks` stands once, with all its dependents before it.
abbrev pub Behind : List Dep → List String → List String → Type 0
Behind edges seen [] = Unit
Behind edges seen (k ∷ ks) =
    (contains seen k ≡ false)
    × ((d : String) → contains (dependents edges k) d ≡ true → contains seen d ≡ true)
    × Behind edges (seen ++ k ∷ []) ks

module _ (edges : List Dep) where
  regroup :
      (seen : List String) (k : String) (ks : List String) (d : String)
      → contains ((seen ++ k ∷ []) ++ ks) d ≡ contains (seen ++ k ∷ ks) d
  unfolding contains
  regroup seen k ks d = ground (
    arith,
    contains-append (seen ++ k ∷ []) ks d,
    contains-append seen (k ∷ []) d,
    contains-append seen (k ∷ ks) d,
  )

  pub Behind-snoc :
      (seen ks : List String) (k : String)
      → Behind edges seen ks
      → contains (seen ++ ks) k ≡ false
      → ((d : String) → contains (dependents edges k) d ≡ true → contains (seen ++ ks) d ≡ true)
      → Behind edges seen (ks ++ k ∷ [])
  unfolding contains
  Behind-snoc seen [] k b new deps = (
    ground (arith, contains-append seen [] k),
    λ d c. ground (arith, deps d c, contains-append seen [] d),
    tt,
  )
  Behind-snoc seen (j ∷ ks) k (fresh, before, b) new deps = (
    fresh,
    before,
    Behind-snoc (seen ++ j ∷ []) ks k b (regroup seen j ks k ∙ new)
        (λ d c. regroup seen j ks d ∙ deps d c),
  )

  -- What stands behind nothing is closed under dependents.
  pub Behind-closed :
      (seen ks : List String) (k d : String)
      → Behind edges seen ks
      → contains ks k ≡ true
      → contains (dependents edges k) d ≡ true
      → contains (seen ++ ks) d ≡ true
  unfolding contains
  Behind-closed seen [] k d b h c = cc
  Behind-closed seen (j ∷ ks) k d (fresh, before, b) h c = elim (Bool-cases (str_eq j k)) [
    | inl e ↦
        let j_k : j ≡ k = (eq_iff j k).0 e in
        ground (arith, before d (rw j_k c), contains-append seen (j ∷ ks) d)
    | inr off ↦
        ground
          (arith, Behind-closed (seen ++ j ∷ []) ks k d b (ground arith) c, regroup seen j ks d)
  ]

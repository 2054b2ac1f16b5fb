-- ===== src/Job/ArraySpec/Sorted.antt =====
-- The order of the indices that `ParseArraySpec` of jobs/arrayspec.go returns.
use batchq.Shared.{
  ◌≡◌, refl, ◌∙◌, ap, suc, true, false, ◌||◌, List, [], ◌∷◌, length, arith, Bool-cases, inl, inr,
}
use batchq.Shared.Int.{ℤ, pos, negsuc, ltb_ℤ}
use batchq.Job.ArraySpec.{eq_ℤ, contains_ℤ, insert, sort}

pub eq_ℤ-eq : (a b : ℤ) → eq_ℤ a b ≡ true → a ≡ b
eq_ℤ-eq (pos a) (pos b) h = ap pos (ground (arith, h))
eq_ℤ-eq (pos a) (negsuc b) h = absurd (ground (arith, h))
eq_ℤ-eq (negsuc a) (pos b) h = absurd (ground (arith, h))
eq_ℤ-eq (negsuc a) (negsuc b) h = ap negsuc (ground (arith, h))

-- Each index is less than all behind it.
abbrev pub Ascending : List ℤ → Type 0
Ascending [] = Unit
Ascending (x ∷ xs) = ((k : ℤ) → contains_ℤ xs k ≡ true → ltb_ℤ x k ≡ true) × Ascending xs

-- No index stands twice.
abbrev pub Distinct : List ℤ → Type 0
Distinct [] = Unit
Distinct (x ∷ xs) = (contains_ℤ xs x ≡ false) × Distinct xs

insert-contains_ℤ :
    (x : ℤ) (ys : List ℤ) (k : ℤ) → contains_ℤ (insert x ys) k ≡ (eq_ℤ x k || contains_ℤ ys k)
unfolding insert contains_ℤ
insert-contains_ℤ x [] k = refl
insert-contains_ℤ x (y ∷ ys) k = elim (Bool-cases (ltb_ℤ y x)) [
  | inl e ↦ rw (e, insert-contains_ℤ x ys k) (ground arith)
  | inr n ↦ rw n refl
]

insert-Ascending :
    (x : ℤ) (ys : List ℤ) → contains_ℤ ys x ≡ false → Ascending ys → Ascending (insert x ys)
unfolding insert contains_ℤ
insert-Ascending x [] new a = (λ k h. cc, tt)
insert-Ascending x (y ∷ ys) new (first, a) = elim (Bool-cases (ltb_ℤ y x)) [
  | inl e ↦ rw e (
    λ k h. ground (arith, insert-contains_ℤ x ys k, first k),
    insert-Ascending x ys (ground (arith, new)) a,
  )
  | inr n ↦ rw n (λ k h. ground (arith, new, first k), (first, a))
]

pub sort-contains_ℤ : (xs : List ℤ) (k : ℤ) → contains_ℤ (sort xs) k ≡ contains_ℤ xs k
unfolding sort contains_ℤ
sort-contains_ℤ [] k = refl
sort-contains_ℤ (x ∷ xs) k = insert-contains_ℤ x (sort xs) k ∙ rw (sort-contains_ℤ xs k) refl

pub sort-Ascending : (xs : List ℤ) → Distinct xs → Ascending (sort xs)
unfolding sort
sort-Ascending [] d = tt
sort-Ascending (x ∷ xs) (new, d) =
    insert-Ascending x (sort xs) (sort-contains_ℤ xs x ∙ new) (sort-Ascending xs d)

insert-length : (x : ℤ) (ys : List ℤ) → length (insert x ys) ≡ suc (length ys)
unfolding insert
insert-length x [] = refl
insert-length x (y ∷ ys) = elim (Bool-cases (ltb_ℤ y x)) [
  | inl e ↦ rw (e, insert-length x ys) refl
  | inr n ↦ rw n refl
]

pub sort-length : (xs : List ℤ) → length (sort xs) ≡ length xs
unfolding sort
sort-length [] = refl
sort-length (x ∷ xs) = insert-length x (sort xs) ∙ ap suc (sort-length xs)

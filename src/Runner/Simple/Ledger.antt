-- ===== src/Runner/Simple/Ledger.antt =====
-- One resource of the runner: what is free and what is used add up to what there is.
use batchq.Shared.{
  ◌≡◌, refl, ℕ, zero, suc, ◌+◌, ◌-◌, ◌≤◌, true, false, not, ◌||◌, List, [], ◌∷◌, ◌++◌, String,
  str_eq, eq_iff, find, select, length, arith, Bool-cases, inl, inr, Option, none, some,
}
use batchq.Shared.Int.{ℤ, pos, negsuc, pos_part, ◌+ℤ◌}
use batchq.Store.Claim.Fits.{within}
use batchq.Runner.Simple.{JobStatus, is_positive, is_minus_one, reserve, give_back}

-- The sum of a resource over the jobs that ask for some of it.
unfoldable pub used : (JobStatus → ℤ) → List JobStatus → ℕ
used need [] = 0
used need (x ∷ xs) = pos_part (need x) + used need xs

-- With a limit that is positive, `avail` is the rest of it. No limit asks for nothing.
abbrev pub Ledger : (max avail : ℤ) → ℕ → Type 0
Ledger (pos zero) avail n = Unit
Ledger (pos (suc m)) avail n = (a : ℕ) × (avail ≡ pos a) × (a + n ≡ suc m)
Ledger (negsuc m) avail n = Unit

used-append :
    (need : JobStatus → ℤ) (xs ys : List JobStatus)
    → used need (xs ++ ys) ≡ used need xs + used need ys
unfolding used
used-append need [] ys = omega arith
used-append need (x ∷ xs) ys = omega (arith, used-append need xs ys)

reserved :
    (a : ℕ) (n : ℤ)
    → (is_positive (pos a) || is_minus_one (pos a)) ≡ true
    → within (pos a) n ≡ true
    → (reserve (pos a) n ≡ pos (a - pos_part n)) × (pos_part n ≤ a)
unfolding reserve within
reserved a (pos zero) left fits = ground arith
reserved a (pos (suc k)) left fits = ground arith
reserved a (negsuc k) left fits = ground arith

pub returned : (a : ℕ) (n : ℤ) → give_back (pos a) n ≡ pos (a + pos_part n)
unfolding give_back ◌+ℤ◌
returned a (pos zero) = ground arith
returned a (pos (suc k)) = ground arith
returned a (negsuc k) = ground arith

pub used-snoc :
    (need : JobStatus → ℤ) (xs : List JobStatus) (x : JobStatus)
    → used need (xs ++ x ∷ []) ≡ used need xs + pos_part (need x)
unfolding used
used-snoc need xs x = omega (arith, used-append need xs (x ∷ []))

pub reserve-Ledger :
    (max avail n : ℤ) (u : ℕ)
    → Ledger max avail u
    → (is_positive avail || is_minus_one avail) ≡ true
    → within avail n ≡ true
    → Ledger max (reserve avail n) (u + pos_part n)
reserve-Ledger (pos zero) avail n u l left fits = tt
reserve-Ledger (pos (suc m)) avail n u (a, e, total) left fits =
    let (rest, enough) = reserved a n (rw e at left) (rw e at fits) in
    (a - pos_part n, rw e rest, omega arith)
reserve-Ledger (negsuc m) avail n u l left fits = tt

pub give_back-Ledger :
    (max avail n : ℤ) (u : ℕ) → Ledger max avail (u + pos_part n) → Ledger max (give_back avail n) u
give_back-Ledger (pos zero) avail n u l = tt
give_back-Ledger (pos (suc m)) avail n u (a, e, total) =
    (a + pos_part n, rw e (returned a n), omega arith)
give_back-Ledger (negsuc m) avail n u l = tt

abbrev pub others : String → List JobStatus → List JobStatus
others id xs = select (λ (y : JobStatus). not (str_eq y.job_id id)) xs

abbrev pub job_at : String → List JobStatus → Option JobStatus
job_at id xs = find (λ (y : JobStatus). str_eq y.job_id id) xs

pub length-others : (id : String) (xs : List JobStatus) → length (others id xs) ≤ length xs
unfolding select
length-others id [] = omega arith
length-others id (x ∷ xs) = ground (arith, length-others id xs)

-- No two jobs of the list have one id.
abbrev pub Distinct : List JobStatus → Type 0
Distinct [] = Unit
Distinct (x ∷ xs) = (job_at x.job_id xs ≡ none) × Distinct xs

job_at-others :
    (id k : String) (xs : List JobStatus) → job_at k xs ≡ none → job_at k (others id xs) ≡ none
unfolding find select
job_at-others id k [] h = refl
job_at-others id k (x ∷ xs) h = ground (arith, job_at-others id k xs)

pub others-Distinct : (id : String) (xs : List JobStatus) → Distinct xs → Distinct (others id xs)
unfolding select
others-Distinct id [] d = tt
others-Distinct id (x ∷ xs) d =
    ground (arith, others-Distinct id xs d.1, job_at-others id x.job_id xs d.0)

others_absent : (id : String) (xs : List JobStatus) → job_at id xs ≡ none → others id xs ≡ xs
unfolding find select
others_absent id [] h = refl
others_absent id (x ∷ xs) h = ground (arith, others_absent id xs)

-- The job that ends is the only one that is taken out.
pub used-others :
    (need : JobStatus → ℤ) (id : String) (xs : List JobStatus) (x : JobStatus)
    → Distinct xs
    → job_at id xs ≡ some x
    → used need (others id xs) + pos_part (need x) ≡ used need xs
unfolding used find select
used-others need id [] x d h = cc
used-others need id (y ∷ ys) x d h = elim (Bool-cases (str_eq y.job_id id)) [
  | inl e ↦
      let same : y.job_id ≡ id = (eq_iff y.job_id id).0 e in
      let is_x : y ≡ x = ground arith in
      rw (e, others_absent id ys (rw (← same) d.0)) (rw is_x (omega arith))
  | inr e ↦ let rest = used-others need id ys x d.1 (ground arith) in rw e (omega (arith, rest))
]

job_at-append :
    (k : String) (xs : List JobStatus) (x : JobStatus)
    → job_at k xs ≡ none
    → str_eq x.job_id k ≡ false
    → job_at k (xs ++ x ∷ []) ≡ none
unfolding find
job_at-append k [] x h e = rw e refl
job_at-append k (y ∷ ys) x h e = ground (arith, job_at-append k ys x)

pub append-Distinct :
    (xs : List JobStatus) (x : JobStatus)
    → Distinct xs
    → job_at x.job_id xs ≡ none
    → Distinct (xs ++ x ∷ [])
unfolding find
append-Distinct [] x d h = (refl, tt)
append-Distinct (y ∷ ys) x d h =
    let apart : str_eq x.job_id y.job_id ≡ false =
      ground (arith, eq_iff x.job_id y.job_id, eq_iff y.job_id x.job_id) in
    (job_at-append y.job_id ys x d.0 apart, append-Distinct ys x d.1 (ground arith))

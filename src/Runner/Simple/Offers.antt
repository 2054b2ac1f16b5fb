-- ===== src/Runner/Simple/Offers.antt =====
-- What an offer of the runner is worth when its answer comes, runner/simple.go.
use batchq.Shared.{
  ◌≡◌, refl, ℕ, zero, suc, ◌+◌, ◌≤◌, ◌⊎◌, inl, inr, Bool, true, false, not, ◌&&◌, ◌||◌, Option,
  none, some, List, [], ◌∷◌, String, str_eq, length, arith, Bool-cases, Option-cases, ◌==◌,
}
use batchq.Shared.Int.{ℤ, pos, negsuc, pos_part, is_zero}
use batchq.Shared.Text.{atoi}
use batchq.Store.Claim.Fits.{within, or_zero}
use batchq.Runner.Simple.{
  JobStatus, SimpleRunner, is_positive, is_minus_one, one_at_a_time, find_job, count_detail,
  with_job, start_job, seek, reserve, give_back,
}
use batchq.Runner.Simple.Ledger.{used, Ledger, returned, reserve-Ledger, Distinct}

-- What was offered of a limited resource is still there.
abbrev pub Backs : (max offer avail : ℤ) → Type 0
Backs (pos zero) offer avail = Unit
Backs (pos (suc m)) offer avail =
    ((is_positive avail || is_minus_one avail) ≡ true)
    × ((n : ℤ) → within offer n ≡ true → within avail n ≡ true)
Backs (negsuc m) offer avail = Unit

abbrev pub Backed : SimpleRunner → Option (ℤ × ℤ) → Type 0
Backed r none = Unit
Backed r (some (procs, mem)) =
    Backs r.max_procs procs r.avail_procs
    × Backs r.max_memory_mb mem r.avail_mem
    × (one_at_a_time r ≡ true → r.cur_jobs ≡ [])

-- What holds of the runner in every reachable state.
pub record Sound (max_procs max_memory_mb : ℤ) (r : SimpleRunner) : Type 0 where
  pub same_procs : r.max_procs ≡ max_procs
  pub same_mem : r.max_memory_mb ≡ max_memory_mb
  pub procs : Ledger r.max_procs r.avail_procs (used (λ x. x.procs) r.cur_jobs)
  pub mem : Ledger r.max_memory_mb r.avail_mem (used (λ x. x.mem) r.cur_jobs)
  pub distinct : Distinct r.cur_jobs
  pub single : one_at_a_time r ≡ true → length r.cur_jobs ≤ 1

some-injective {ℓ} : {A : Type ℓ} {a b : A} → some a ≡ some b → a ≡ b
some-injective h = cc

within-minus_one : (limit p : ℤ) → negsuc 0 ≡ p → within limit p ≡ true
unfolding within
within-minus_one limit (pos n) e = cc
within-minus_one limit (negsuc n) e = ground arith

pub count_detail-within :
    (s : String) (p limit : ℤ)
    → count_detail s ≡ some p
    → within limit (or_zero (atoi s)) ≡ true
    → within limit p ≡ true
unfolding count_detail
count_detail-within s p limit h fits = elim (Bool-cases (str_eq s "")) [
  | inl e ↦
      let none_asked : some (negsuc 0) ≡ some p = rw (e, count_detail) at h in
      within-minus_one limit p (some-injective none_asked)
  | inr e ↦ let read : atoi s ≡ some p = rw (e, count_detail) at h in rw read at fits
]

pub Backs-reserve :
    (max offer avail n : ℤ) (u : ℕ)
    → Ledger max avail u
    → Backs max offer avail
    → within offer n ≡ true
    → Ledger max (reserve avail n) (u + pos_part n)
Backs-reserve (pos zero) offer avail n u l b fits = tt
Backs-reserve (pos (suc m)) offer avail n u l b fits =
    reserve-Ledger (pos (suc m)) avail n u l b.0 (b.1 n fits)
Backs-reserve (negsuc m) offer avail n u l b fits = tt

more_left :
    (a k : ℕ)
    → (is_positive (pos a) || is_minus_one (pos a)) ≡ true
    → (is_positive (pos (a + k)) || is_minus_one (pos (a + k))) ≡ true
more_left a k h = ground arith

within_more :
    (a k : ℕ) (n : ℤ)
    → (is_positive (pos a) || is_minus_one (pos a)) ≡ true
    → within (pos a) n ≡ true
    → within (pos (a + k)) n ≡ true
unfolding within
within_more a k n left fits = ground arith

pub Backs-give_back :
    (max offer avail n : ℤ) (u : ℕ)
    → Ledger max avail u
    → Backs max offer avail
    → Backs max offer (give_back avail n)
Backs-give_back (pos zero) offer avail n u l b = tt
Backs-give_back (pos (suc m)) offer avail n u (a, e, total) b =
    let left : (is_positive (pos a) || is_minus_one (pos a)) ≡ true = rw e at b.0 in
    rw (e, returned a n)
      (
        more_left a (pos_part n) left,
        λ k fits. within_more a (pos_part n) k left (rw e at (b.1 k fits)),
      )
Backs-give_back (negsuc m) offer avail n u l b = tt

-- A job starts only where the tests of the loop passed.
find_job-left :
    (r : SimpleRunner)
    → find_job r ≡ true
    → ((one_at_a_time r ≡ true) × (r.cur_jobs ≡ []))
      ⊎ ((one_at_a_time r ≡ false)
          × ((is_positive r.avail_procs || is_minus_one r.avail_procs) ≡ true)
          × ((is_positive r.avail_mem || is_minus_one r.avail_mem) ≡ true))
unfolding find_job
find_job-left r h = elim (Bool-cases (one_at_a_time r)) [
  | inl one ↦ inl (one, empty r.cur_jobs (rw (one, find_job) at h))
  | inr many ↦ let (procs, mem) = either (rw (many, find_job) at h) in inr (many, procs, mem)
]
  where
    empty : (xs : List JobStatus) → (length xs == 0) ≡ true → xs ≡ []
    empty [] e = refl
    empty (x ∷ xs) e = absurd (ground arith)

    either :
        ((is_positive r.avail_mem && is_positive r.avail_procs)
            || (is_positive r.avail_mem && is_minus_one r.avail_procs)
            || (is_positive r.avail_procs && is_minus_one r.avail_mem))
          ≡ true
        → ((is_positive r.avail_procs || is_minus_one r.avail_procs) ≡ true)
          × ((is_positive r.avail_mem || is_minus_one r.avail_mem) ≡ true)
    either e = ground arith

Backs-self :
    (max avail : ℤ)
    → (is_positive max ≡ true → (is_positive avail || is_minus_one avail) ≡ true)
    → Backs max avail avail
Backs-self (pos zero) avail left = tt
Backs-self (pos (suc m)) avail left = (left (ground arith), λ n fits. fits)
Backs-self (negsuc m) avail left = tt

pub find_job-Backed :
    (r : SimpleRunner) → find_job r ≡ true → Backed r (some (r.avail_procs, r.avail_mem))
unfolding one_at_a_time
find_job-Backed r h = elim (find_job-left r h) [
  | inl (one, empty) ↦ (
    Backs-self r.max_procs r.avail_procs (λ p. absurd (ground (arith, one, p))),
    Backs-self r.max_memory_mb r.avail_mem (λ p. absurd (ground (arith, one, p))),
    λ _. empty,
  )
  | inr (many, procs, mem) ↦ (
    Backs-self r.max_procs r.avail_procs (λ _. procs),
    Backs-self r.max_memory_mb r.avail_mem (λ _. mem),
    λ one. absurd (ground (arith, many, one)),
  )
]

pub seek-cases :
    (drain : Bool) (r : SimpleRunner)
    → (seek drain r ≡ (r, false))
      ⊎ ((seek drain r ≡ (record r { keep_running = false }, false))
          ⊎ ((find_job r ≡ true) × (seek drain r ≡ (r, true))))
unfolding seek
seek-cases drain r = elim (Bool-cases (drain || not r.keep_running)) [
  | inl e ↦ elim (Bool-cases (drain && length r.cur_jobs == 0)) [
    | inl f ↦ inr (inl (rw (e, seek) (rw f refl)))
    | inr f ↦ inl (rw (e, seek) (rw f refl))
  ]
  | inr e ↦ elim (Bool-cases (is_zero r.avail_jobs)) [
    | inl f ↦ inr (inl (rw (e, seek) (rw f refl)))
    | inr f ↦ elim (Bool-cases (find_job r)) [
      | inl g ↦ inr (inr (g, rw (e, seek) (rw f (rw g refl))))
      | inr g ↦ inl (rw (e, seek) (rw f (rw g refl)))
    ]
  ]
]

-- A start makes no change, or adds the job with the numbers of its details.
pub start_job-cases :
    (launched : Bool) (id p m : String) (r : SimpleRunner)
    → ((start_job launched id p m r).0 ≡ r)
      ⊎ ((np : ℤ) × (nm : ℤ) × (count_detail p ≡ some np)
          × (count_detail m ≡ some nm)
          × ((start_job launched id p m r).0
              ≡ with_job (record { job_id = id; procs = np; mem = nm }) r))
unfolding start_job
start_job-cases launched id p m r = elim (Option-cases (count_detail p)) [
  | inl e ↦ inl (rw (e, start_job) refl)
  | inr (np, ep) ↦ elim (Option-cases (count_detail m)) [
    | inl e ↦ inl (rw (ep, start_job) (rw e refl))
    | inr (nm, em) ↦ elim (Bool-cases launched) [
      | inl up ↦ inr (np, nm, ep, em, rw (ep, start_job) (rw em (rw up refl)))
      | inr down ↦ inl (rw (ep, start_job) (rw em (rw down refl)))
    ]
  ]
]

-- ===== src/Runner/Slurm/Bounds.antt =====
-- The bounds of the SLURM runner (runner/slurm.go).
use batchq.Shared.{◌≡◌, refl, ◌⊎◌, inl, inr, true, false, ◌&&◌, ◌||◌, arith, Bool-cases}
use batchq.Shared.Int.{ℤ, pos, negsuc, ltb_ℤ}
use batchq.Runner.Slurm.{pass_ceiling, clamp_min_array}

-- A cap that is set bounds the number.
abbrev pub Within : ℤ → ℤ → Type 0
Within n cap = ltb_ℤ (pos 0) cap ≡ true → ltb_ℤ cap n ≡ false

pass_ceiling-cases :
    (max_user_jobs max_jobs : ℤ)
    → (pass_ceiling max_user_jobs max_jobs ≡ max_user_jobs)
      ⊎ ((pass_ceiling max_user_jobs max_jobs ≡ max_jobs)
          ⊎ (pass_ceiling max_user_jobs max_jobs ≡ negsuc 0))
unfolding pass_ceiling
pass_ceiling-cases u j = elim (Bool-cases (ltb_ℤ (pos 0) u)) [
  | inl set ↦ elim (Bool-cases (ltb_ℤ (pos 0) j && (ltb_ℤ u (pos 0) || ltb_ℤ j u))) [
    | inl e ↦ inr (inl (rw (pass_ceiling, set) (rw e refl)))
    | inr e ↦ inl (rw (pass_ceiling, set) (rw e refl))
  ]
  | inr unset ↦ elim (Bool-cases (ltb_ℤ (pos 0) j)) [
    | inl e ↦ inr (inl (rw (pass_ceiling, unset) (rw e refl)))
    | inr e ↦ inr (inr (rw (pass_ceiling, unset) (rw e refl)))
  ]
]

one_of :
    (min_array max_user_jobs max_jobs : ℤ)
    → ((clamp_min_array min_array max_user_jobs max_jobs).0 ≡ min_array)
      ⊎ (((clamp_min_array min_array max_user_jobs max_jobs).0 ≡ max_user_jobs)
          ⊎ ((clamp_min_array min_array max_user_jobs max_jobs).0 ≡ max_jobs))
unfolding clamp_min_array
one_of m u j =
    let c = pass_ceiling u j in
    elim (Bool-cases (ltb_ℤ (pos 0) m && ltb_ℤ (pos 0) c && ltb_ℤ c m)) [
      | inr e ↦ inl (rw (clamp_min_array, e) refl)
      | inl e ↦ elim (pass_ceiling-cases u j) [
        | inl f ↦ inr (inl (rw (clamp_min_array, e) f))
        | inr (inl f) ↦ inr (inr (rw (clamp_min_array, e) f))
        | inr (inr f) ↦ absurd (ground (arith, rw f at e))
      ]
    ]

-- Where a minimum is asked for, the number that comes out is the least of it and the caps that are
-- set: positive, within both caps, not above the minimum, and one of these numbers. It is told as
-- lowered just where it is less than the minimum.
pub clamp_min_array-Least :
    (min_array max_user_jobs max_jobs : ℤ)
    → ltb_ℤ (pos 0) min_array ≡ true
    → (ltb_ℤ (pos 0) (clamp_min_array min_array max_user_jobs max_jobs).0 ≡ true)
      × Within (clamp_min_array min_array max_user_jobs max_jobs).0 max_user_jobs
      × Within (clamp_min_array min_array max_user_jobs max_jobs).0 max_jobs
      × (ltb_ℤ min_array (clamp_min_array min_array max_user_jobs max_jobs).0 ≡ false)
      × (((clamp_min_array min_array max_user_jobs max_jobs).0 ≡ min_array)
          ⊎ (((clamp_min_array min_array max_user_jobs max_jobs).0 ≡ max_user_jobs)
              ⊎ ((clamp_min_array min_array max_user_jobs max_jobs).0 ≡ max_jobs)))
      × ((clamp_min_array min_array max_user_jobs max_jobs).2
          ≡ ltb_ℤ (clamp_min_array min_array max_user_jobs max_jobs).0 min_array)
unfolding clamp_min_array pass_ceiling
clamp_min_array-Least min_array max_user_jobs max_jobs h = (
  ground (arith, h),
  λ cap. ground (arith, h, cap),
  λ cap. ground (arith, h, cap),
  ground (arith, h),
  one_of min_array max_user_jobs max_jobs,
  ground (arith, h),
)

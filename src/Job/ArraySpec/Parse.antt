-- ===== src/Job/ArraySpec/Parse.antt =====
-- What `ParseArraySpec` of jobs/arrayspec.go returns.
use batchq.Shared.{
  ◌≡◌, refl, ◌∙◌, sym, ℕ, suc, ◌≤◌, ◌<◌, ◌⊎◌, ◌↔◌, inl, inr, Bool, true, Option, none, some, List,
  [], ◌∷◌, length, arith, String, str_eq, Bool-cases, Option-cases,
}
use batchq.Shared.Int.{ℤ}
use batchq.Shared.Result.{ok, err, other, ◌>>=◌}
use batchq.Shared.Text.{trim_space, split}
use batchq.Job.ArraySpec.{
  max_array_tasks, ArraySpec, contains_ℤ, sort, expand_terms, parse_throttle, made,
  parse_array_spec,
}
use batchq.Job.ArraySpec.Sorted.{Ascending, Distinct, sort-contains_ℤ, sort-Ascending, sort-length}
use batchq.Job.ArraySpec.Expansion.{Expands}
use batchq.Job.ArraySpec.Terms.{all_fit, Covered, some_bad, expand_terms_lem}

-- Whether the fuel is enough for each range of the text, and no index of one wraps around.
abbrev terms_fit : ℕ → Option (ℤ × String) → Bool
terms_fit fuel none = true
terms_fit fuel (some (throttle, terms)) = all_fit fuel (split b',' terms)

unfoldable pub spec_fits : ℕ → String → Bool
spec_fits fuel text = terms_fit fuel (parse_throttle (trim_space text))

-- An accepted specification: its throttle, and the indices that its terms cover, each once and in
-- ascending order.
pub record Accepts (text : String) (spec : ArraySpec) : Type 0 where
  pub terms : String
  pub throttled : parse_throttle (trim_space text) ≡ some (spec.throttle, terms)
  pub exact : (k : ℤ) → (contains_ℤ spec.indices k ≡ true) ↔ Covered (split b',' terms) k
  pub ascending : Ascending spec.indices
  pub some_task : 1 ≤ length spec.indices
  pub bound : length spec.indices ≤ max_array_tasks

-- The terms are refused: one is bad, no index is covered, or more than 100000 are.
abbrev pub RefusesTerms : List String → Type 0
RefusesTerms texts =
    (some_bad texts ≡ true)
    ⊎ (((k : ℤ) → ¬ (Covered texts k))
        ⊎ ((many : List ℤ) × (max_array_tasks < length many)
            × Distinct many
            × ((k : ℤ) → contains_ℤ many k ≡ true → Covered texts k)))

-- Why a specification is refused.
abbrev pub Refuses : String → Option (ℤ × String) → Type 0
Refuses s none = Unit
Refuses s (some (throttle, terms)) = (str_eq s "" ≡ true) ⊎ RefusesTerms (split b',' terms)

nothing_before : (A : ℤ → Type 0) (k : ℤ) → (contains_ℤ [] k ≡ true) ⊎ A k → A k
unfolding contains_ℤ
nothing_before A k (inl h) = cc
nothing_before A k (inr a) = a

Refuses-empty : (s : String) (o : Option (ℤ × String)) → str_eq s "" ≡ true → Refuses s o
Refuses-empty s none h = tt
Refuses-empty s (some (throttle, terms)) h = inl h

-- The list of the terms, read to the end.
read_terms :
    (fuel : ℕ) (throttle : ℤ) (texts : List String)
    → all_fit fuel texts ≡ true
    → (((expand_terms (suc fuel) texts [] >>= made throttle) ≡ err other) × RefusesTerms texts)
      ⊎ ((out : List ℤ) × ((expand_terms (suc fuel) texts [] >>= made throttle)
            ≡ ok (record { indices = sort out; throttle = throttle }))
          × (1 ≤ length out)
          × Expands (Covered texts) [] out)
read_terms fuel throttle texts fit = elim (expand_terms_lem fuel texts [] fit) [
  | inl (bad, why) ↦ inl (rw bad refl, inl why)
  | inr (inl (bad, over)) ↦ inl (
    rw bad refl,
    inr (
        inr (
          over.many,
          over.above,
          over.distinct tt,
          λ k h. nothing_before (Covered texts) k (over.within k h),
        )),
  )
  | inr (inr ([], done, x)) ↦ inl (
    rw done refl,
    inr (inl (λ k c. absurd (nothing_before (λ k. ⊥) k (inl ((x.exact k).1 (inr c)))))),
  )
  | inr (inr (n ∷ indices, done, x)) ↦ inr (n ∷ indices, rw done refl, omega arith, x)
]

-- Where the fuel is enough and no index wraps around, a specification is read to an end. It is refused
-- where it has no text, a bad throttle, a bad term, no index or more than 100000 indices. Else the
-- result has just the indices that its terms cover, in ascending order and none twice, at least one and
-- at most 100000.
pub parse_array_spec_exact :
    (fuel : ℕ) (text : String)
    → spec_fits fuel text ≡ true
    → ((parse_array_spec (suc fuel) text ≡ err other)
        × Refuses (trim_space text) (parse_throttle (trim_space text)))
      ⊎ ((spec : ArraySpec) × (parse_array_spec (suc fuel) text ≡ ok spec) × Accepts text spec)
unfolding parse_array_spec spec_fits
parse_array_spec_exact fuel text fit = elim (Bool-cases (str_eq (trim_space text) "")) [
  | inl e ↦ inl (rw e refl, Refuses-empty (trim_space text) (parse_throttle (trim_space text)) e)
  | inr some_text ↦ elim (Option-cases (parse_throttle (trim_space text))) [
    | inl e ↦ inl (rw (some_text, e) refl, rw e tt)
    | inr ((throttle, terms), e) ↦
        let texts = split b',' terms in
        elim (read_terms fuel throttle texts (rw (e, spec_fits) at fit)) [
          | inl (bad, why) ↦ inl (rw (some_text, e) bad, rw e (inr why))
          | inr (out, done, first, x) ↦ inr (
            record { indices = sort out; throttle = throttle },
            rw (some_text, e) done,
            record {
              terms = terms;
              throttled = e;
              exact = λ k. (
                λ h.
                    nothing_before (Covered texts) k
                      ((x.exact k).0 (sym (sort-contains_ℤ out k) ∙ h)),
                λ c. sort-contains_ℤ out k ∙ (x.exact k).1 (inr c),
              );
              ascending = sort-Ascending out (x.distinct tt);
              some_task = rw (sort-length out) first;
              bound = rw (sort-length out) (x.bound (omega arith));
            },
          )
        ]
  ]
]

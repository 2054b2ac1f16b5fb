-- ===== src/Job/ArraySpec/Terms.antt =====
-- The terms of an array specification, and all of them in turn (jobs/arrayspec.go).
use batchq.Shared.{
  ◌≡◌, refl, ◌∙◌, sym, ap, ℕ, suc, ◌+◌, ◌^◌, ◌≤◌, ◌<◌, ◌⊎◌, ◌↔◌, inl, inr, Bool, true, false, ◌&&◌,
  Option, none, some, List, [], ◌∷◌, arith, String, ltb, Option-cases,
}
use batchq.Shared.Int.{ℤ, pos, negsuc, pos_part}
use batchq.Shared.Result.{ok, err, other}
use batchq.Shared.Text.{atoi, trim_space, cut}
use batchq.Job.ArraySpec.{
  expand, both_numbers, one_number, parse_range, positive, Term, with_step, stepped_range,
  parse_term, expand_terms,
}
use batchq.Job.ArraySpec.Expansion.{
  InRange, Expands-trans, TooMany-more, TooMany-map, Ends, expand_lem,
}

abbrev Ranged : ℤ × ℤ → Type 0
Ranged r = (a : ℕ) × (b : ℕ) × (r ≡ (pos a, pos b)) × (a ≤ b)

both_numbers-Ranged : (lo hi : Option ℤ) (r : ℤ × ℤ) → both_numbers lo hi ≡ some r → Ranged r
both_numbers-Ranged none hi r h = cc
both_numbers-Ranged (some lo) none r h = cc
both_numbers-Ranged (some (pos a)) (some (pos b)) r h = (a, b, ground (arith, h), ground (arith, h))
both_numbers-Ranged (some (pos a)) (some (negsuc b)) r h = absurd (ground (arith, h))
both_numbers-Ranged (some (negsuc a)) (some hi) r h = absurd (ground (arith, h))

one_number-Ranged : (n : Option ℤ) (r : ℤ × ℤ) → one_number n ≡ some r → Ranged r
one_number-Ranged none r h = cc
one_number-Ranged (some (pos a)) r h = (a, a, ground (arith, h), omega arith)
one_number-Ranged (some (negsuc a)) r h = absurd (ground (arith, h))

parse_range-Ranged : (term : String) (r : ℤ × ℤ) → parse_range term ≡ some r → Ranged r
unfolding parse_range
parse_range-Ranged term r h = elim (Option-cases (cut b'-' term)) [
  | inl e ↦ one_number-Ranged (atoi term) r (ground (arith, h))
  | inr ((a, b), e) ↦
      both_numbers-Ranged (atoi (trim_space a)) (atoi (trim_space b)) r (ground (arith, h))
]

positive-pos : (o : Option ℤ) (n : ℤ) → positive o ≡ some n → (m : ℕ) × (n ≡ pos m) × (0 < m)
positive-pos none n h = cc
positive-pos (some (pos m)) n h = (m, ground (arith, h), ground (arith, h))
positive-pos (some (negsuc m)) n h = absurd (ground (arith, h))

-- What a term that is accepted says: it starts at 0 or above, ends there or later, and its step is
-- above 0.
record Means (t : Term) : Type 0 where
  first : ℕ
  last : ℕ
  by : ℕ
  lo : t.lo ≡ pos first
  hi : t.hi ≡ pos last
  step : t.step ≡ pos by
  up : 0 < by

with_step-Means :
    (step : Option ℤ) (range : Option (ℤ × ℤ)) (t : Term)
    → ((n : ℤ) → step ≡ some n → (m : ℕ) × (n ≡ pos m) × (0 < m))
    → ((r : ℤ × ℤ) → range ≡ some r → Ranged r)
    → with_step step range ≡ some t
    → Means t
with_step-Means none range t f g h = cc
with_step-Means (some n) none t f g h = cc
with_step-Means (some n) (some r) t f g h =
    let (m, n_m, up) = f n refl in
    let (a, b, r_ab, le) = g r refl in
    let same : t ≡ record { lo = r.0; hi = r.1; step = n } = ground (arith, h) in
    record {
      first = a;
      last = b;
      by = m;
      lo = ap (λ x. x.lo) same ∙ ap (λ x. x.0) r_ab;
      hi = ap (λ x. x.hi) same ∙ ap (λ x. x.1) r_ab;
      step = ap (λ x. x.step) same ∙ n_m;
      up = up;
    }

stepped_range-Means : (text : String) (t : Term) → stepped_range text ≡ some t → Means t
unfolding stepped_range
stepped_range-Means text t h = elim (Option-cases (cut b':' text)) [
  | inl e ↦
      with_step-Means (some (pos 1)) (parse_range text) t
        (λ n s. (1, ground (arith, s), omega arith)) (parse_range-Ranged text)
        (rw (e, stepped_range) at h)
  | inr ((a, b), e) ↦
      with_step-Means (positive (atoi (trim_space b))) (parse_range (trim_space a)) t
        (positive-pos (atoi (trim_space b))) (parse_range-Ranged (trim_space a))
        (rw (e, stepped_range) at h)
]

parse_term-Means : (text : String) (t : Term) → parse_term text ≡ some t → Means t
unfolding parse_term
parse_term-Means text t h = stepped_range-Means (trim_space text) t (ground (arith, h))

-- The indices of a term.
abbrev pub InTerm : Term → ℤ → Type 0
InTerm t k = InRange (pos_part t.lo) (pos_part t.hi) (pos_part t.step) k

-- Fuel for the numbers of the range, where no index wraps around.
abbrev fits : ℕ → Option Term → Bool
fits fuel none = true
fits fuel (some t) =
    ltb (pos_part t.hi + pos_part t.step) (2 ^ 63) && ltb (pos_part t.hi) (pos_part t.lo + fuel)

unfoldable pub all_fit : ℕ → List String → Bool
all_fit fuel [] = true
all_fit fuel (text ∷ texts) = fits fuel (parse_term text) && all_fit fuel texts

-- The indices of all terms.
abbrev pub Covered : List String → ℤ → Type 0
Covered [] k = ⊥
Covered (text ∷ texts) k = ((t : Term) × (parse_term text ≡ some t) × InTerm t k) ⊎ Covered texts k

term_lem :
    (fuel : ℕ) (t : Term) (indices : List ℤ)
    → Means t
    → fits fuel (some t) ≡ true
    → Ends (InTerm t) indices (expand (suc fuel) t.lo t.hi t.step indices)
term_lem fuel t indices m room =
    let lo = ap pos_part m.lo in
    let hi = ap pos_part m.hi in
    let step = ap pos_part m.step in
    rw (m.lo, m.hi, m.step)
      (expand_lem fuel m.first m.last m.by indices m.up (ground (arith, room, hi, step))
        (ground (arith, room, lo, hi)))

expand_terms-next :
    (fuel : ℕ) (text : String) (texts : List String) (indices more : List ℤ) (t : Term)
    → parse_term text ≡ some t
    → expand fuel t.lo t.hi t.step indices ≡ ok more
    → expand_terms fuel (text ∷ texts) indices ≡ expand_terms fuel texts more
unfolding expand_terms
expand_terms-next fuel text texts indices more t is_term e = rw (is_term, e, expand_terms) refl

expand_terms-bad :
    (fuel : ℕ) (text : String) (texts : List String) (indices : List ℤ) (t : Term)
    → parse_term text ≡ some t
    → expand fuel t.lo t.hi t.step indices ≡ err other
    → expand_terms fuel (text ∷ texts) indices ≡ err other
unfolding expand_terms
expand_terms-bad fuel text texts indices t is_term e = rw (is_term, e, expand_terms) refl

Covered-step :
    (text : String) (texts : List String) (t : Term) (k : ℤ)
    → parse_term text ≡ some t
    → (InTerm t k ⊎ Covered texts k) ↔ Covered (text ∷ texts) k
Covered-step text texts t k is_term = (to, from)
  where
    to : InTerm t k ⊎ Covered texts k → Covered (text ∷ texts) k
    to (inl i) = inl (t, is_term, i)
    to (inr c) = inr c

    from : Covered (text ∷ texts) k → InTerm t k ⊎ Covered texts k
    from (inl (x, is_x, i)) =
        let both : some x ≡ some t = sym is_x ∙ is_term in
        let same : x ≡ t = cc in inl (rw (← same) i)
    from (inr c) = inr c

-- Some term is not accepted.
unfoldable pub some_bad : List String → Bool
some_bad [] = false
some_bad (text ∷ texts) = elim (parse_term text) [ none ↦ true | some t ↦ some_bad texts ]

some_bad-next :
    (text : String) (texts : List String) (t : Term)
    → parse_term text ≡ some t
    → some_bad (text ∷ texts) ≡ some_bad texts
unfolding some_bad
some_bad-next text texts t e = rw (e, some_bad) refl

-- The expansion of a list of terms ends, where all fit.
pub expand_terms_lem :
    (fuel : ℕ) (texts : List String) (indices : List ℤ)
    → all_fit fuel texts ≡ true
    → ((expand_terms (suc fuel) texts indices ≡ err other) × (some_bad texts ≡ true))
      ⊎ Ends (Covered texts) indices (expand_terms (suc fuel) texts indices)
unfolding all_fit
expand_terms_lem fuel [] indices fit = inr (
    inr (
      indices,
      unfold expand_terms in refl,
      record {
        exact = λ k. (λ h. inl h, λ h. elim h [ inl i ↦ i | inr c ↦ absurd c ]);
        distinct = λ d. d;
        bound = λ b. b;
      },
    ))
expand_terms_lem fuel (text ∷ texts) indices fit = elim (Option-cases (parse_term text)) [
  | inl e ↦
      inl
        (unfold expand_terms in rw (e, expand_terms) refl, unfold some_bad in rw (e, some_bad) refl)
  | inr (t, is_term) ↦
      let first_fits : fits fuel (parse_term text) ≡ true = ground (arith, fit) in
      let room : fits fuel (some t) ≡ true = ap (fits fuel) (sym is_term) ∙ first_fits in
      let both = λ (k : ℤ). Covered-step text texts t k is_term in
      elim (term_lem fuel t indices (parse_term-Means text t is_term) room) [
        | inl (bad, over) ↦ inr (
            inl (
              expand_terms-bad (suc fuel) text texts indices t is_term bad,
              TooMany-map (InTerm t) (Covered (text ∷ texts)) indices (λ k a. (both k).0 (inl a))
                  over,
            ))
        | inr (more, e, first) ↦
            let goes = expand_terms-next (suc fuel) text texts indices more t is_term e in
            elim (expand_terms_lem fuel texts more (ground (arith, fit))) [
              | inl (bad, why) ↦ inl (goes ∙ bad, some_bad-next text texts t is_term ∙ why)
              | inr (inl (bad, over)) ↦ inr (
                  inl (
                    goes ∙ bad,
                    TooMany-more (InTerm t) (Covered texts) (Covered (text ∷ texts)) indices more
                        both first over,
                  ))
              | inr (inr (out, done, rest)) ↦ inr (
                  inr (
                    out,
                    goes ∙ done,
                    Expands-trans (InTerm t) (Covered texts) (Covered (text ∷ texts)) indices more
                        out both first rest,
                  ))
            ]
      ]
]

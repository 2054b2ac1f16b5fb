-- ===== src/Job/ArraySpec/Expansion.antt =====
-- The expansion of the terms of an array specification (jobs/arrayspec.go).
use batchq.Shared.{
  ◌≡◌, refl, ◌∙◌, sym, ap, ℕ, zero, suc, ◌+◌, ◌*◌, ◌^◌, ◌≤◌, ◌<◌, ◌⊎◌, ◌↔◌, inl, inr, true, false,
  List, ◌∷◌, length, arith, ltb, Bool-cases,
}
use batchq.Shared.Int.{ℤ, pos, ◌+ℤ◌, ltb_ℤ}
use batchq.Shared.Int.Wrap.{wrap}
use batchq.Shared.Result.{Result, ok, err, other}
use batchq.Job.ArraySpec.{max_array_tasks, eq_ℤ, contains_ℤ, add_index, expand}
use batchq.Job.ArraySpec.Sorted.{eq_ℤ-eq, Distinct}

wrap-pos : (n step : ℕ) → n + step < 2 ^ 63 → wrap (pos n +ℤ pos step) ≡ pos (n + step)
unfolding wrap ◌+ℤ◌
wrap-pos n step h = ground arith

-- The numbers of a range: lo, lo + step, …, up to hi.
abbrev pub InRange : (lo hi step : ℕ) → ℤ → Type 0
InRange lo hi step k = (j : ℕ) × (k ≡ pos (lo + j * step)) × (lo + j * step ≤ hi)

-- What an expansion adds to the indices found before, where `Covered` says which.
pub record Expands (Covered : ℤ → Type 0) (indices out : List ℤ) : Type 0 where
  pub exact : (k : ℤ) → (contains_ℤ out k ≡ true) ↔ ((contains_ℤ indices k ≡ true) ⊎ Covered k)
  pub distinct : Distinct indices → Distinct out
  pub bound : length indices ≤ max_array_tasks → length out ≤ max_array_tasks

-- More indices than the code allows are found before or covered.
pub record TooMany (Covered : ℤ → Type 0) (indices : List ℤ) : Type 0 where
  pub many : List ℤ
  pub above : max_array_tasks < length many
  pub distinct : Distinct indices → Distinct many
  pub within : (k : ℤ) → contains_ℤ many k ≡ true → (contains_ℤ indices k ≡ true) ⊎ Covered k

-- It ends: there are too many indices, or the covered ones are added.
abbrev pub Ends : (ℤ → Type 0) → List ℤ → Result (List ℤ) → Type 0
Ends Covered indices r =
    ((r ≡ err other) × TooMany Covered indices)
    ⊎ ((out : List ℤ) × (r ≡ ok out) × Expands Covered indices out)

cons-contains_ℤ :
    (n : ℤ) (indices : List ℤ) (k : ℤ)
    → (contains_ℤ (n ∷ indices) k ≡ true) ↔ ((contains_ℤ indices k ≡ true) ⊎ (k ≡ n))
unfolding contains_ℤ
cons-contains_ℤ n indices k = (to, from)
  where
    to : contains_ℤ (n ∷ indices) k ≡ true → (contains_ℤ indices k ≡ true) ⊎ (k ≡ n)
    to h = elim (Bool-cases (eq_ℤ n k)) [
      | inl e ↦ inr (sym (eq_ℤ-eq n k e))
      | inr off ↦ inl (ground (arith, h))
    ]

    from : (contains_ℤ indices k ≡ true) ⊎ (k ≡ n) → contains_ℤ (n ∷ indices) k ≡ true
    from (inl h) = ground (arith, h)
    from (inr k_n) = rw k_n (ground arith)

add_index_lem : (n : ℤ) (indices : List ℤ) → Ends (λ k. k ≡ n) indices (add_index n indices)
unfolding add_index contains_ℤ
add_index_lem n indices = elim (Bool-cases (contains_ℤ indices n)) [
  | inl e ↦ inr (
    indices,
    rw e refl,
    record {
      exact = λ k. (λ h. inl h, λ h. elim h [ inl i ↦ i | inr k_n ↦ rw k_n e ]);
      distinct = λ d. d;
      bound = λ b. b;
    },
  )
  | inr new ↦ elim (Bool-cases (ltb max_array_tasks (suc (length indices)))) [
    | inl over ↦ inl (
      rw (new, over) refl,
      record {
        many = n ∷ indices;
        above = ground (arith, over);
        distinct = λ d. (new, d);
        within = λ k. (cons-contains_ℤ n indices k).0;
      },
    )
    | inr few ↦ inr (
      n ∷ indices,
      rw (new, few) refl,
      record {
        exact = λ k. cons-contains_ℤ n indices k;
        distinct = λ d. (new, d);
        bound = λ b. ground (arith, few);
      },
    )
  ]
]

pub Expands-trans :
    (A B C : ℤ → Type 0) (indices more out : List ℤ)
    → ((k : ℤ) → (A k ⊎ B k) ↔ C k)
    → Expands A indices more
    → Expands B more out
    → Expands C indices out
Expands-trans A B C indices more out both f g = record {
  exact = λ k. (to k, from k);
  distinct = λ d. g.distinct (f.distinct d);
  bound = λ b. g.bound (f.bound b);
}
  where
    to : (k : ℤ) → contains_ℤ out k ≡ true → (contains_ℤ indices k ≡ true) ⊎ C k
    to k h = elim ((g.exact k).0 h) [
      | inr b ↦ inr ((both k).0 (inr b))
      | inl m ↦ elim ((f.exact k).0 m) [ inl i ↦ inl i | inr a ↦ inr ((both k).0 (inl a)) ]
    ]

    from : (k : ℤ) → (contains_ℤ indices k ≡ true) ⊎ C k → contains_ℤ out k ≡ true
    from k (inl i) = (g.exact k).1 (inl ((f.exact k).1 (inl i)))
    from k (inr c) = elim ((both k).1 c) [
      | inl a ↦ (g.exact k).1 (inl ((f.exact k).1 (inr a)))
      | inr b ↦ (g.exact k).1 (inr b)
    ]

pub TooMany-more :
    (A B C : ℤ → Type 0) (indices more : List ℤ)
    → ((k : ℤ) → (A k ⊎ B k) ↔ C k)
    → Expands A indices more
    → TooMany B more
    → TooMany C indices
TooMany-more A B C indices more both f g = record {
  many = g.many;
  above = g.above;
  distinct = λ d. g.distinct (f.distinct d);
  within = λ k h. elim (g.within k h) [
    | inr b ↦ inr ((both k).0 (inr b))
    | inl m ↦ elim ((f.exact k).0 m) [ inl i ↦ inl i | inr a ↦ inr ((both k).0 (inl a)) ]
  ];
}

pub TooMany-map :
    (A C : ℤ → Type 0) (indices : List ℤ)
    → ((k : ℤ) → A k → C k)
    → TooMany A indices
    → TooMany C indices
TooMany-map A C indices f g = record {
  many = g.many;
  above = g.above;
  distinct = g.distinct;
  within = λ k h. elim (g.within k h) [ inl i ↦ inl i | inr a ↦ inr (f k a) ];
}

InRange-step :
    (n hi step : ℕ) (k : ℤ)
    → n ≤ hi
    → ((k ≡ pos n) ⊎ InRange (n + step) hi step k) ↔ InRange n hi step k
InRange-step n hi step k le = (to, from)
  where
    to : (k ≡ pos n) ⊎ InRange (n + step) hi step k → InRange n hi step k
    to (inl e) = (0, e ∙ ap pos (omega arith), omega arith)
    to (inr (j, e, h)) = (suc j, e ∙ ap pos (omega arith), omega arith)

    from : InRange n hi step k → (k ≡ pos n) ⊎ InRange (n + step) hi step k
    from (zero, e, h) = inl (e ∙ ap pos (omega arith))
    from (suc j, e, h) = inr (j, e ∙ ap pos (omega arith), omega arith)

expand-past :
    (fuel n hi step : ℕ) (indices : List ℤ)
    → ltb_ℤ (pos hi) (pos n) ≡ true
    → Ends (InRange n hi step) indices (expand (suc fuel) (pos n) (pos hi) (pos step) indices)
unfolding expand
expand-past fuel n hi step indices past = inr (
  indices,
  rw (past, expand) refl,
  record {
    exact = λ k.
        (λ h. inl h, λ h. elim h [ inl i ↦ i | inr (j, e, le) ↦ absurd (ground (arith, past)) ]);
    distinct = λ d. d;
    bound = λ b. b;
  },
)

expand-next :
    (fuel n hi step : ℕ) (indices more : List ℤ)
    → n + step < 2 ^ 63
    → ltb_ℤ (pos hi) (pos n) ≡ false
    → add_index (pos n) indices ≡ ok more
    → expand (suc fuel) (pos n) (pos hi) (pos step) indices
      ≡ expand fuel (pos (n + step)) (pos hi) (pos step) more
unfolding expand
expand-next fuel n hi step indices more small within e =
    rw (within, e, expand)
      (ap (λ m. expand fuel m (pos hi) (pos step) more) (wrap-pos n step small))

expand-bad :
    (fuel n hi step : ℕ) (indices : List ℤ)
    → ltb_ℤ (pos hi) (pos n) ≡ false
    → add_index (pos n) indices ≡ err other
    → expand (suc fuel) (pos n) (pos hi) (pos step) indices ≡ err other
unfolding expand
expand-bad fuel n hi step indices within e = rw (within, e, expand) refl

-- With fuel for the numbers from the index to the end of the range the loop ends, where the index
-- does not wrap around on the way.
pub expand_lem :
    (fuel n hi step : ℕ) (indices : List ℤ)
    → 0 < step
    → hi + step < 2 ^ 63
    → hi < n + fuel
    → Ends (InRange n hi step) indices (expand (suc fuel) (pos n) (pos hi) (pos step) indices)
expand_lem zero n hi step indices up small enough =
    expand-past zero n hi step indices (ground (arith, enough))
expand_lem (suc f) n hi step indices up small enough = elim (Bool-cases (ltb_ℤ (pos hi) (pos n))) [
  | inl past ↦ expand-past (suc f) n hi step indices past
  | inr within ↦ elim (add_index_lem (pos n) indices) [
    | inl (bad, over) ↦
        let le : n ≤ hi = ground (arith, within) in
        inl (
          expand-bad (suc f) n hi step indices within bad,
          TooMany-map (λ k. k ≡ pos n) (InRange n hi step) indices
              (λ k a. (InRange-step n hi step k le).0 (inl a)) over,
        )
    | inr (more, e, added) ↦
        let le : n ≤ hi = ground (arith, within) in
        let goes = expand-next (suc f) n hi step indices more (omega arith) within e in
        let both = λ (k : ℤ). InRange-step n hi step k le in
        elim (expand_lem f (n + step) hi step more up small (omega arith)) [
          | inl (bad, over) ↦ inl (
            goes ∙ bad,
            TooMany-more (λ k. k ≡ pos n) (InRange (n + step) hi step) (InRange n hi step) indices
                more both added over,
          )
          | inr (out, done, rest) ↦ inr (
            out,
            goes ∙ done,
            Expands-trans (λ k. k ≡ pos n) (InRange (n + step) hi step) (InRange n hi step) indices
                more out both added rest,
          )
        ]
  ]
]

-- ===== src/Service/Removal/Search.antt =====
-- `canRemove` of `planRemoval` (service/service.go): it ends, and its marks are right.
use batchq.Shared.{
  ◌≡◌, refl, ◌∙◌, ℕ, zero, suc, ◌≤◌, ◌<◌, Bool, true, false, Option, none, some, List, [], ◌∷◌,
  arith, String, str_eq, eq_iff, eq_refl, contains, Bool-cases, Option-cases, inl, inr,
}
use batchq.Store.Db.{Dep}
use batchq.Service.Removal.{
  Mark, visiting, removable, blocked, Marks, mark_of, dependents, all_removable, conclude,
  can_remove,
}
use batchq.Service.Removal.Marks.{
  is_marked, is_removable, Sound, Kept, Kept-refl, Kept-trans, Kept-new, Kept-blocked,
  Kept-removable, unmarked, unmarked-le, unmarked-lt,
}

module _ (cand : List String) (edges : List Dep) where
  -- What a visit of a job leaves, and what its answer says.
  pub record Visited (id : String) (marks marks' : Marks) (answer : Bool) : Type 0 where
    pub sound : Sound cand edges marks'
    pub kept : Kept marks marks'
    pub yes : answer ≡ true → is_removable (mark_of marks' id) ≡ true

  -- The same for all jobs of a list.
  record VisitedAll (ds : List String) (marks marks' : Marks) (answer : Bool) : Type 0 where
    sound : Sound cand edges marks'
    kept : Kept marks marks'
    yes :
        answer ≡ true → (d : String) → contains ds d ≡ true → is_removable (mark_of marks' d) ≡ true

  -- A visit ends well wherever at most n candidates have no mark.
  abbrev VisitsBelow : ℕ → (String → Marks → Option (Bool × Marks)) → Type 0
  VisitsBelow n visit =
      (d : String) (marks : Marks)
      → unmarked cand marks ≤ n
      → Sound cand edges marks
      → (answer : Bool) × (marks' : Marks) × (visit d marks ≡ some (answer, marks'))
        × Visited d marks marks' answer

  module _ (n : ℕ) (visit : String → Marks → Option (Bool × Marks))
      (ends : VisitsBelow n visit) where
    all_removable-next :
        (d : String) (ds : List String) (marks one : Marks)
        → visit d marks ≡ some (true, one)
        → all_removable visit (d ∷ ds) marks ≡ all_removable visit ds one
    unfolding all_removable
    all_removable-next d ds marks one e = rw (e, all_removable) refl

    all_removable_lem :
        (ds : List String) (marks : Marks)
        → unmarked cand marks ≤ n
        → Sound cand edges marks
        → (answer : Bool) × (marks' : Marks) × (all_removable visit ds marks
            ≡ some (answer, marks'))
          × VisitedAll ds marks marks' answer
    unfolding all_removable contains
    all_removable_lem [] marks few s = (
      true,
      marks,
      refl,
      record { sound = s; kept = Kept-refl marks; yes = λ e d c. absurd (ground arith) },
    )
    all_removable_lem (d ∷ ds) marks few s =
        let (first, one, e, v) = ends d marks few s in
        elim (Bool-cases first) [
          | inr n ↦
              let is_one : visit d marks ≡ some (false, one) = e ∙ rw n refl in
              (
                false,
                one,
                rw (is_one, all_removable) refl,
                record { sound = v.sound; kept = v.kept; yes = λ y. absurd (ground arith) },
              )
          | inl y ↦
              let is_one : visit d marks ≡ some (true, one) = e ∙ rw y refl in
              let fewer : unmarked cand one ≤ n =
                omega (arith, unmarked-le cand marks one v.kept) in
              let (answer, marks', e', w) = all_removable_lem ds one fewer v.sound in
              (
                answer,
                marks',
                all_removable-next d ds marks one is_one ∙ e',
                record {
                  sound = w.sound;
                  kept = Kept-trans marks one marks' v.kept w.kept;
                  yes = λ y' k c. elim (Bool-cases (str_eq d k)) [
                    | inl same ↦
                        let eq : d ≡ k = (eq_iff d k).0 same in
                        rw (← eq) (Kept-removable one marks' d w.kept (v.yes y))
                    | inr off ↦ w.yes y' k (ground arith)
                  ];
                },
              )
        ]

  -- The branches of `canRemove`, as equations.
  module _ (fuel : ℕ) (id : String) (marks : Marks) where
    can_remove-known :
        (m : Mark)
        → mark_of marks id ≡ some m
        → can_remove cand edges (suc fuel) id marks ≡ (elim m [
          | visiting ↦ some (false, (id, blocked) ∷ marks)
          | removable ↦ some (true, marks)
          | blocked ↦ some (false, marks)
        ])
    unfolding can_remove
    can_remove-known visiting e = rw (e, can_remove) refl
    can_remove-known removable e = rw (e, can_remove) refl
    can_remove-known blocked e = rw (e, can_remove) refl

    can_remove-stranger :
        mark_of marks id ≡ none
        → contains cand id ≡ false
        → can_remove cand edges (suc fuel) id marks ≡ some (false, (id, blocked) ∷ marks)
    unfolding can_remove
    can_remove-stranger e c = rw (e, c, can_remove) refl

    can_remove-candidate :
        mark_of marks id ≡ none
        → contains cand id ≡ true
        → can_remove cand edges (suc fuel) id marks
          ≡ conclude id (
              all_removable
                (λ d m. can_remove cand edges fuel d m)
                (dependents edges id)
                ((id, visiting) ∷ marks))
    unfolding can_remove
    can_remove-candidate e c = rw (e, c, can_remove) refl

  -- A job with the mark `removable` is answered at once.
  pub can_remove-yes :
      (fuel : ℕ) (id : String) (marks : Marks)
      → is_removable (mark_of marks id) ≡ true
      → can_remove cand edges (suc fuel) id marks ≡ some (true, marks)
  can_remove-yes fuel id marks h = elim (Option-cases (mark_of marks id)) [
    | inl e ↦ absurd (ground arith)
    | inr (removable, e) ↦ can_remove-known fuel id marks removable e
    | inr (visiting, e) ↦ absurd (ground arith)
    | inr (blocked, e) ↦ absurd (ground arith)
  ]

  known_lem :
      (id : String) (marks : Marks) (m : Mark) (fuel : ℕ)
      → mark_of marks id ≡ some m
      → Sound cand edges marks
      → (answer : Bool) × (marks' : Marks) × (can_remove cand edges (suc fuel) id marks
          ≡ some (answer, marks'))
        × Visited id marks marks' answer
  known_lem id marks visiting fuel e s =
      let low : is_removable (mark_of marks id) ≡ false = rw e refl in
      (
        false,
        (id, blocked) ∷ marks,
        can_remove-known fuel id marks visiting e,
        record {
          sound = (low, tt, s);
          kept = Kept-blocked marks id low;
          yes = λ n. absurd (ground arith);
        },
      )
  known_lem id marks removable fuel e s = (
    true,
    marks,
    can_remove-known fuel id marks removable e,
    record { sound = s; kept = Kept-refl marks; yes = λ y. rw e refl },
  )
  known_lem id marks blocked fuel e s = (
    false,
    marks,
    can_remove-known fuel id marks blocked e,
    record { sound = s; kept = Kept-refl marks; yes = λ n. absurd (ground arith) },
  )

  concluded :
      (id : String) (marks : Marks) (answer : Bool) (marks' : Marks)
      → is_marked (mark_of marks id) ≡ false
      → contains cand id ≡ true
      → VisitedAll (dependents edges id) ((id, visiting) ∷ marks) marks' answer
      → (last : Bool) × (final : Marks) × (conclude id (some (answer, marks')) ≡ some (last, final))
        × Visited id marks final last
  unfolding mark_of
  concluded id marks answer marks' new c v =
      let started = Kept-new marks marks id visiting new (Kept-refl marks) in
      let low : is_removable (mark_of marks' id) ≡ false =
        v.kept.same id (rw eq_refl refl) ∙ (rw eq_refl refl) in
      let kept = Kept-trans marks ((id, visiting) ∷ marks) marks' started v.kept in
      elim (Bool-cases answer) [
        | inl y ↦ (
          true,
          (id, removable) ∷ marks',
          rw y refl,
          record {
            sound = (low, (c, v.yes y), v.sound);
            kept = Kept-new marks marks' id removable new kept;
            yes = λ _. rw eq_refl refl;
          },
        )
        | inr n ↦ (
          false,
          (id, blocked) ∷ marks',
          rw n refl,
          record {
            sound = (low, tt, v.sound);
            kept = Kept-new marks marks' id blocked new kept;
            yes = λ h. absurd (ground arith);
          },
        )
      ]

  -- With more fuel than there are candidates with no mark a visit ends, and leaves the marks right.
  pub can_remove_lem :
      (fuel : ℕ) (id : String) (marks : Marks)
      → unmarked cand marks < fuel
      → Sound cand edges marks
      → (answer : Bool) × (marks' : Marks) × (can_remove cand edges fuel id marks
          ≡ some (answer, marks'))
        × Visited id marks marks' answer
  can_remove_lem zero id marks few s = absurd (omega arith)
  can_remove_lem (suc fuel) id marks few s = elim (Option-cases (mark_of marks id)) [
    | inr (m, e) ↦ known_lem id marks m fuel e s
    | inl e ↦
        let new : is_marked (mark_of marks id) ≡ false = rw e refl in
        let low : is_removable (mark_of marks id) ≡ false = rw e refl in
        elim (Bool-cases (contains cand id)) [
          | inr c ↦ (
            false,
            (id, blocked) ∷ marks,
            can_remove-stranger fuel id marks e c,
            record {
              sound = (low, tt, s);
              kept = Kept-new marks marks id blocked new (Kept-refl marks);
              yes = λ n. absurd (ground arith);
            },
          )
          | inl c ↦
              let start : Marks = (id, visiting) ∷ marks in
              let fewer = unmarked-lt cand marks id visiting c new in
              let (answer, marks', is_all, v) =
                all_removable_lem (unmarked cand start) (λ d m. can_remove cand edges fuel d m)
                  (λ d m less sm. can_remove_lem fuel d m (omega arith) sm) (dependents edges id)
                  start (omega arith) (low, tt, s) in
              let (last, final, is_end, visited) = concluded id marks answer marks' new c v in
              (last, final, can_remove-candidate fuel id marks e c ∙ rw is_all is_end, visited)
        ]
  ]

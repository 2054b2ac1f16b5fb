-- ===== src/Service/Removal/Marks.antt =====
-- The map of marks of `planRemoval` (service/service.go): when it is right, and how it grows.
use batchq.Shared.{
  ◌≡◌, refl, ◌∙◌, ℕ, ◌≤◌, ◌<◌, Bool, true, false, not, Option, none, some, List, [], ◌∷◌, arith,
  String, str_eq, eq_iff, eq_refl, contains, tally, Bool-cases, inl, inr,
}
use batchq.Store.Db.{Dep}
use batchq.Service.Removal.{Mark, visiting, removable, blocked, Marks, mark_of, dependents}

abbrev pub is_marked : Option Mark → Bool
is_marked none = false
is_marked (some m) = true

abbrev pub is_removable : Option Mark → Bool
is_removable (some removable) = true
is_removable _ = false

-- A mark that says a job can be removed stands on those of all its dependents.
abbrev pub Justified : List String → List Dep → Mark → String → Marks → Type 0
Justified cand edges removable id marks =
    (contains cand id ≡ true)
    × ((d : String)
        → contains (dependents edges id) d ≡ true
        → is_removable (mark_of marks d) ≡ true)
Justified cand edges visiting id marks = Unit
Justified cand edges blocked id marks = Unit

-- No entry covers one that says `removable`, and those are justified by what is under them.
abbrev pub Sound : List String → List Dep → Marks → Type 0
Sound cand edges [] = Unit
Sound cand edges ((id, m) ∷ marks) =
    (is_removable (mark_of marks id) ≡ false)
    × Justified cand edges m id marks
    × Sound cand edges marks

-- A job that has a mark keeps one, which says `removable` if it did.
pub record Kept (marks marks' : Marks) : Type 0 where
  pub marked :
      (k : String) → is_marked (mark_of marks k) ≡ true → is_marked (mark_of marks' k) ≡ true
  pub same :
      (k : String)
      → is_marked (mark_of marks k) ≡ true
      → is_removable (mark_of marks' k) ≡ is_removable (mark_of marks k)

pub Kept-refl : (marks : Marks) → Kept marks marks
Kept-refl marks = record { marked = λ k h. h; same = λ k h. refl }

pub Kept-trans : (a b c : Marks) → Kept a b → Kept b c → Kept a c
Kept-trans a b c f g = record {
  marked = λ k h. g.marked k (f.marked k h);
  same = λ k h. g.same k (f.marked k h) ∙ f.same k h;
}

-- An entry for a job that had no mark at first.
pub Kept-new :
    (marks marks' : Marks) (id : String) (m : Mark)
    → is_marked (mark_of marks id) ≡ false
    → Kept marks marks'
    → Kept marks ((id, m) ∷ marks')
unfolding mark_of
Kept-new marks marks' id m new h = record {
  marked = λ k e. ground (arith, eq_iff id k, h.marked k);
  same = λ k e. ground (arith, eq_iff id k, h.same k);
}

-- An entry `blocked` for a job that was marked, and not as removable.
pub Kept-blocked :
    (marks : Marks) (id : String)
    → is_removable (mark_of marks id) ≡ false
    → Kept marks ((id, blocked) ∷ marks)
unfolding mark_of
Kept-blocked marks id h = record {
  marked = λ k e. ground (arith, eq_iff id k);
  same = λ k e. ground (arith, eq_iff id k);
}

pub Kept-removable :
    (marks marks' : Marks) (k : String)
    → Kept marks marks'
    → is_removable (mark_of marks k) ≡ true
    → is_removable (mark_of marks' k) ≡ true
Kept-removable marks marks' k h e = h.same k (ground arith) ∙ e

pub tally_mono :
    (p q : String → Bool) (xs : List String)
    → ((k : String) → p k ≡ true → q k ≡ true)
    → tally p xs ≤ tally q xs
unfolding tally
tally_mono p q [] h = omega arith
tally_mono p q (x ∷ xs) h = ground (arith, h x, tally_mono p q xs h)

pub tally_strict :
    (p q : String → Bool) (xs : List String) (x : String)
    → ((k : String) → p k ≡ true → q k ≡ true)
    → contains xs x ≡ true
    → q x ≡ true
    → p x ≡ false
    → tally p xs < tally q xs
unfolding tally contains
tally_strict p q [] x h c y n = cc
tally_strict p q (z ∷ xs) x h c y n = elim (Bool-cases (str_eq z x)) [
  | inl e ↦
      let same : z ≡ x = (eq_iff z x).0 e in
      let yz : q z ≡ true = rw same y in
      let nz : p z ≡ false = rw same n in ground (arith, tally_mono p q xs h)
  | inr off ↦ ground (arith, h z, tally_strict p q xs x h (ground arith) y n)
]

-- How many candidates have no mark yet.
abbrev pub unmarked : List String → Marks → ℕ
unmarked cand marks = tally (λ c. not (is_marked (mark_of marks c))) cand

pub unmarked-le :
    (cand : List String) (marks marks' : Marks)
    → Kept marks marks'
    → unmarked cand marks' ≤ unmarked cand marks
unmarked-le cand marks marks' h = tally_mono _ _ cand (λ k e. ground (arith, h.marked k))

pub unmarked-lt :
    (cand : List String) (marks : Marks) (id : String) (m : Mark)
    → contains cand id ≡ true
    → is_marked (mark_of marks id) ≡ false
    → unmarked cand ((id, m) ∷ marks) < unmarked cand marks
unmarked-lt cand marks id m c new =
    tally_strict _ _ cand id (λ k e. unfold mark_of in ground (arith, eq_iff id k)) c (rw new refl)
      (unfold mark_of in rw eq_refl refl)

-- Only candidates are removable.
pub removable-candidate :
    (cand : List String) (edges : List Dep) (marks : Marks) (id : String)
    → Sound cand edges marks
    → is_removable (mark_of marks id) ≡ true
    → contains cand id ≡ true
unfolding mark_of
removable-candidate cand edges [] id s h = cc
removable-candidate cand edges ((j, m) ∷ marks) id s h = elim (Bool-cases (str_eq j id)) [
  | inl e ↦ top m s ((eq_iff j id).0 e) (rw (e, mark_of) at h)
  | inr off ↦ removable-candidate cand edges marks id s.2 (rw (off, mark_of) at h)
]
  where
    top :
        (m' : Mark)
        → Sound cand edges ((j, m') ∷ marks)
        → j ≡ id
        → is_removable (some m') ≡ true
        → contains cand id ≡ true
    top removable (low, (c, deps), s') same t = rw (← same) c
    top visiting s' same t = cc
    top blocked s' same t = cc

-- ===== src/Server/Auth/Token.antt =====
-- Which requests pass the check of the token (server/auth.go).
use Prim.Native.Char.{code}
use Prim.Native.String.{◌++◌ as str_append}
use text.Mathlib.TextLemmas.{nil-append, cons-append}
use batchq.Shared.{
  ◌≡◌, ◌≢◌, sym, ap, ◌∙◌, ◌⊎◌, inl, inr, ◌↔◌, true, none, some, String, str_eq, eq_iff, arith,
  Bool-cases, Option-cases, ==_iff, ◌==◌,
}
use batchq.Shared.Text.{trim_space}
use batchq.Server.Auth.{ApiRequest, lower, strip_fold, bearer_token, route_health, with_auth}

-- Two texts that differ in the case of their letters alone.
abbrev pub SameFold : String → String → Type 0
SameFold String.[] String.[] = Unit
SameFold String.[] (String.◌∷◌ c s) = ⊥
SameFold (String.◌∷◌ p ps) String.[] = ⊥
SameFold (String.◌∷◌ p ps) (String.◌∷◌ c s) = (lower (code p) ≡ lower (code c)) × SameFold ps s

some-injective {ℓ} : {A : Type ℓ} {a b : A} → some a ≡ some b → a ≡ b
some-injective h = cc

strip_fold-some :
    (p s rest : String)
    → strip_fold p s ≡ some rest
    → (scheme : String) × (s ≡ str_append scheme rest) × SameFold p scheme
unfolding strip_fold
strip_fold-some String.[] s rest h = ("", some-injective h ∙ sym (nil-append rest), tt)
strip_fold-some (String.◌∷◌ p ps) String.[] rest h = cc
strip_fold-some (String.◌∷◌ p ps) (String.◌∷◌ c s) rest h =
    elim (Bool-cases (lower (code p) == lower (code c))) [
      | inl e ↦
          let (scheme, split, same) = strip_fold-some ps s rest (rw (e, strip_fold) at h) in
          (
            String.◌∷◌ c scheme,
            ap (λ t. String.◌∷◌ c t) split ∙ sym (cons-append c scheme rest),
            ((==_iff _ _).0 e, same),
          )
      | inr e ↦ let no : none ≡ some rest = rw (e, strip_fold) at h in cc
    ]

strip_fold-SameFold :
    (p scheme rest : String) → SameFold p scheme → strip_fold p (str_append scheme rest) ≡ some rest
unfolding strip_fold
strip_fold-SameFold String.[] String.[] rest h = ap some (nil-append rest)
strip_fold-SameFold String.[] (String.◌∷◌ c s) rest h = absurd h
strip_fold-SameFold (String.◌∷◌ p ps) String.[] rest h = absurd h
strip_fold-SameFold (String.◌∷◌ p ps) (String.◌∷◌ c s) rest h =
    rw (cons-append c s rest) (rw ((==_iff _ _).1 h.0) (strip_fold-SameFold ps s rest h.1))

-- The header carries the token: "bearer " in any case, then the token, with space round it or not.
abbrev pub Carries : (token header : String) → Type 0
Carries token header =
    (scheme : String) × (rest : String) × (header ≡ str_append scheme rest)
    × SameFold "bearer " scheme
    × (trim_space rest ≡ token)

bearer_token-Carries :
    (token header : String) → token ≢ "" → (bearer_token header ≡ token) ↔ Carries token header
unfolding bearer_token
bearer_token-Carries token header given = (
  λ h. elim (Option-cases (strip_fold "bearer " header)) [
    | inl e ↦
        let empty : ◌≡◌ {A = String} "" token = rw (e, bearer_token) at h in
        absurd (given (sym empty))
    | inr (rest, e) ↦
        let (scheme, split, same) = strip_fold-some "bearer " header rest e in
        (scheme, rest, split, same, rw (e, bearer_token) at h)
  ],
  λ (scheme, rest, split, same, is_token).
      rw (split, bearer_token) (rw (strip_fold-SameFold "bearer " scheme rest same) is_token),
)

-- With a token configured, a request passes the check just where it asks for the health of the
-- server, or has any text at all in the header of the server's own probes, or carries the token.
-- The digest is taken to tell the token from the text that the request has for it.
pub with_auth_exact :
    (digest : String → String) (token : String) (req : ApiRequest)
    → token ≢ ""
    → (digest token ≡ digest (bearer_token req.authorization)
        → bearer_token req.authorization ≡ token)
    → (with_auth digest token req ≡ true)
      ↔ ((req.path ≡ route_health) ⊎ ((req.internal_owner ≢ "") ⊎ Carries token req.authorization))
unfolding with_auth
with_auth_exact digest token req given apart = (
  λ h. elim (Bool-cases (str_eq req.path route_health)) [
    | inl e ↦ inl ((eq_iff req.path route_health).0 e)
    | inr e ↦ elim (Bool-cases (str_eq req.internal_owner "")) [
      | inr f ↦ inr (inl (λ empty. absurd (ground (arith, f, eq_iff req.internal_owner ""))))
      | inl f ↦
          let equal : str_eq (digest token) (digest (bearer_token req.authorization)) ≡ true =
            ground (arith, given, eq_iff token "", h) in
          inr (
            inr (
              (bearer_token-Carries token req.authorization given).0
                (apart ((eq_iff (digest token) _).0 equal))))
    ]
  ],
  λ h. elim h [
    | inl e ↦ ground (arith, e, eq_iff req.path route_health)
    | inr (inl f) ↦ ground (arith, f, eq_iff req.internal_owner "")
    | inr (inr c) ↦
        let same = (bearer_token-Carries token req.authorization given).1 c in
        let equal : str_eq (digest token) (digest (bearer_token req.authorization)) ≡ true =
          (eq_iff (digest token) _).1 (sym (ap digest same)) in
        ground (arith, equal)
  ],
)

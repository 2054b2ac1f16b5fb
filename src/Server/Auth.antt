-- ===== src/Server/Auth.antt =====
-- The shared token, server/auth.go: `withAuth` and `bearerToken`.
pub mod Token
use Prim.Native.Nat.{ℕ, ◌+◌}
use Prim.Native.Char.{code}
use Prim.Native.String
use batchq.Shared.{
  Bool, true, false, not, ◌&&◌, ◌||◌, Option, none, some, String, str_eq, leb, ◌==◌, if◌then◌else◌,
}
use batchq.Shared.Text.{trim_space}

-- What the middleware reads of a request.
pub record ApiRequest : Type 0 where
  pub path : String
  pub internal_owner : String
  pub authorization : String

-- Letters of both cases are equal, as for `strings.EqualFold` on ASCII.
abbrev pub lower : ℕ → ℕ
lower c = if leb b'A' c && leb c b'Z' then c + 32 else c

-- The rest of a text behind a prefix, whatever the case of its letters.
unfoldable pub strip_fold : String → String → Option String
strip_fold String.[] s = some s
strip_fold (String.◌∷◌ p ps) String.[] = none
strip_fold (String.◌∷◌ p ps) (String.◌∷◌ c s) =
    let rest = strip_fold ps s in if lower (code p) == lower (code c) then rest else none

unfoldable pub bearer_token : String → String
unfolding strip_fold
bearer_token header = elim (strip_fold "bearer " header) [ none ↦ "" | some rest ↦ trim_space rest ]

abbrev pub route_health : String
route_health = "/healthz"

-- Whether a request reaches the next handler; else it is answered 401. `digest` is SHA-256.
unfoldable pub with_auth : (digest : String → String) → (auth_token : String) → ApiRequest → Bool
with_auth digest auth_token req =
    if str_eq auth_token ""
    then true
    else str_eq req.path route_health
      || not (str_eq req.internal_owner "")
      || str_eq (digest auth_token) (digest (bearer_token req.authorization))

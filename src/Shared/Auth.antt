-- ===== src/Shared/Auth.antt =====
-- src/shared/middleware/auth.ts: who a request comes from, and which roles a route admits.
-- `jwt.verify` is an argument.
pub mod Guards
use Prim.Native.String.{len, slice}
use text.Mathlib.Text.{starts_with}
use tickethub_backend.Common.{
  ℕ, String, ◌<>◌, Bool, true, false, Option, none, some, List, [], ◌∷◌, any, ◌==◌, nat_eq,
  if◌then◌else◌,
}
use tickethub_backend.Errors.{
  Failure, Result, ok, err, unauthorized_error, forbidden_error, plain_error, ◌>>=◌,
}
use tickethub_backend.World.People.{Role, user, organizer, admin}

pub record JwtPayload : Type 0 where
  pub sub : String
  pub role : Role
  pub iat : ℕ
  pub exp : ℕ

-- What `jwt.verify` does with a token: it gives the payload or throws.
pub data Verification : Type 0 where
  payload : JwtPayload → Verification
  token_expired : Verification
  json_web_token_error : Verification
  other_error : Failure → Verification

-- The part of a request that the guards look at.
pub record Request : Type 0 where
  pub is_public : Bool
  pub authorization : Option String
  pub user : Option JwtPayload

unfoldable pub require_user : Request → Result JwtPayload
require_user request = elim request.user [
  | none ↦ err (unauthorized_error "Authentication required")
  | some u ↦ ok u
]

abbrev pub bearer : String
bearer = "Bearer "

abbrev pub missing_header : Failure
missing_header = unauthorized_error "Missing or invalid Authorization header"

-- `startsWith('Bearer ')` and `slice(7)`, which leaves out seven characters of one byte each.
unfoldable pub token_of : Option String → Result String
token_of none = err missing_header
token_of (some header) =
    if starts_with header bearer then ok (slice header 7 (len header)) else err missing_header

unfoldable pub payload_of : Verification → Result JwtPayload
payload_of (payload u) = ok u
payload_of token_expired = err (unauthorized_error "Token has expired")
payload_of json_web_token_error = err (unauthorized_error "Invalid token")
payload_of (other_error e) = err e

unfoldable pub secret_of : Option String → Result String
secret_of none = err (plain_error "JWT_ACCESS_SECRET is not configured")
secret_of (some String.[]) = err (plain_error "JWT_ACCESS_SECRET is not configured")
secret_of (some (String.◌∷◌ c s)) = ok (String.◌∷◌ c s)

-- The `onRequest` hook: the request, with its user.
unfoldable pub authenticate :
    (verify : String → String → Verification) → (secret : Option String) → Request → Result Request
authenticate verify secret request =
    if request.is_public
    then ok request
    else (token_of request.authorization >>= λ token. secret_of secret >>= λ key.
        payload_of (verify token key) >>= λ u. ok (record request { user = some u }))

abbrev role_number : Role → ℕ
role_number user = 0
role_number organizer = 1
role_number admin = 2

-- `roles.includes(role)`
abbrev pub includes : List Role → Role → Bool
includes roles role = any (λ r. role_number r == role_number role) roles

abbrev role_name : Role → String
role_name user = "USER"
role_name organizer = "ORGANIZER"
role_name admin = "ADMIN"

-- `roles.join(', ')`
unfoldable join : List Role → String
join [] = ""
join (r ∷ []) = role_name r
join (r ∷ (s ∷ rs)) = role_name r <> (", " <> join (s ∷ rs))

unfoldable pub authorize_user : List Role → Option JwtPayload → Result (Unit {0})
unfolding join
authorize_user roles none = err (unauthorized_error "Authentication required")
authorize_user roles (some u) =
    if includes roles u.role
    then ok tt
    else err (forbidden_error ("This action requires one of these roles: " <> join roles))

unfoldable pub authorize : List Role → Request → Result (Unit {0})
authorize roles request = authorize_user roles request.user

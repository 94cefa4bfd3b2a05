-- ===== src/Shared/Auth/Guards.antt =====
-- Whom a guarded route lets in.
use Prim.Native.String.{len, slice}
use text.Mathlib.Text.{starts_with}
use text.Mathlib.TextEquality.{starts_with_iff}
use text.Mathlib.TextPositions.{len-append, slice-append_right}
use tickethub_backend.Common.{
  ◌≡◌, refl, sym, ap, ◌∙◌, ◌↔◌, String, ◌<>◌, true, false, Option, none, some, List, inl, inr,
  Bool-cases, if◌then◌else◌, arith,
}
use tickethub_backend.Errors.{Failure, Result, ok, err, forbidden_error, ◌>>=◌, Result-cases}
use tickethub_backend.World.People.{Role}
use tickethub_backend.Shared.Auth.{
  JwtPayload, Verification, payload, Request, bearer, missing_header, token_of, payload_of,
  secret_of, authenticate, includes, authorize, authorize_user, join,
}

starts_bearer : (token : String) → starts_with (bearer <> token) bearer ≡ true
starts_bearer token = (starts_with_iff (bearer <> token) bearer).1 (token, refl)

ok_injective : {A : Type 0} (a b : A) → ok a ≡ ok b → a ≡ b
ok_injective a b h = ground arith

-- A header that carries a token, and no other, gives that token.
read_bearer : (token : String) → token_of (some (bearer <> token)) ≡ ok token
unfolding token_of
read_bearer token = rw (starts_bearer token) (
    ap ok
      (ap (slice (bearer <> token) 7) (len-append bearer token) ∙ slice-append_right bearer token))

token_of-ok :
    (header : Option String) (token : String)
    → token_of header ≡ ok token
    → header ≡ some (bearer <> token)
unfolding token_of
token_of-ok none token h = absurd cc
token_of-ok (some text) token h = elim (Bool-cases (starts_with text bearer)) [
  | inr other ↦
      let bad : err missing_header ≡ ok token =
        sym (ap (λ b. if b then ok (slice text 7 (len text)) else err missing_header) other) ∙ h in
      absurd cc
  | inl same ↦
      let (rest, split) = (starts_with_iff text bearer).0 same in
      let read : token_of (some text) ≡ ok rest =
        ap (λ t. token_of (some t)) (sym split) ∙ read_bearer rest in
      let one : rest ≡ token = ok_injective rest token (sym read ∙ h) in
      ap (λ t. some t) (sym split ∙ ap (λ t. bearer <> t) one)
]

-- A guarded route lets a request in: the hook and the role guard, in this order.
abbrev pub guarded :
    (verify : String → String → Verification) → Option String → List Role → Request → Result Request
guarded verify secret roles request =
    authenticate verify secret request >>= λ r. authorize roles r >>= λ _. ok r

-- The token is the header's, it verifies, and its role is one of the route's.
pub record IsAdmitted (verify : String → String → Verification) (key : String) (roles : List Role)
    (r r' : Request) : Type 0 where
  pub token : String
  pub claims : JwtPayload
  pub header : r.authorization ≡ some (bearer <> token)
  pub verified : verify token key ≡ payload claims
  pub listed : includes roles claims.role ≡ true
  pub with_user : r' ≡ record r { user = some claims }

verified_by : (v : Verification) (u : JwtPayload) → payload_of v ≡ ok u → v ≡ payload u
unfolding payload_of
verified_by (payload a) u h = ap payload (ok_injective a u h)
verified_by Verification.token_expired u h = absurd cc
verified_by Verification.json_web_token_error u h = absurd cc
verified_by (Verification.other_error e) u h = absurd cc

guarded_run :
    (verify : String → String → Verification) (secret : Option String) (key : String)
    (roles : List Role) (r : Request) (token : String) (u : JwtPayload)
    → r.is_public ≡ false
    → secret_of secret ≡ ok key
    → token_of r.authorization ≡ ok token
    → payload_of (verify token key) ≡ ok u
    → guarded verify secret roles r
      ≡ (authorize_user roles (some u) >>= λ _. ok (record r { user = some u }))
unfolding authenticate authorize
guarded_run verify secret key roles r token u h1 h2 h3 h4 = ground arith

role_listed :
    (roles : List Role) (u : JwtPayload)
    → includes roles u.role ≡ true
    → authorize_user roles (some u) ≡ ok tt
unfolding authorize_user
role_listed roles u h = ground arith

role_missing :
    (roles : List Role) (u : JwtPayload)
    → includes roles u.role ≡ false
    → (e : Failure) × (authorize_user roles (some u) ≡ err e)
unfolding authorize_user
role_missing roles u h =
    (forbidden_error ("This action requires one of these roles: " <> join roles), ground arith)

role_cases :
    (roles : List Role) (u : JwtPayload) (r r' : Request)
    → (authorize_user roles (some u) >>= λ _. ok r) ≡ ok r'
    → (includes roles u.role ≡ true) × (r ≡ r')
role_cases roles u r r' h = elim (Bool-cases (includes roles u.role)) [
  | inl listed ↦
      (listed, ok_injective r r' (sym (ap (λ a. a >>= λ _. ok r) (role_listed roles u listed)) ∙ h))
  | inr out ↦
      let (e, refused) = role_missing roles u out in
      let stop : err e ≡ ok r' = sym (ap (λ a. a >>= λ _. ok r) refused) ∙ h in absurd cc
]

no_token :
    (verify : String → String → Verification) (secret : Option String) (roles : List Role)
    (r r' : Request) (e : Failure)
    → r.is_public ≡ false
    → token_of r.authorization ≡ err e
    → guarded verify secret roles r ≡ err e
unfolding authenticate
no_token verify secret roles r r' e h k = ground arith

no_claims :
    (verify : String → String → Verification) (secret : Option String) (key : String)
    (roles : List Role) (r : Request) (token : String) (e : Failure)
    → r.is_public ≡ false
    → secret_of secret ≡ ok key
    → token_of r.authorization ≡ ok token
    → payload_of (verify token key) ≡ err e
    → guarded verify secret roles r ≡ err e
unfolding authenticate
no_claims verify secret key roles r token e h1 h2 h3 h4 = ground arith

guarded-IsAdmitted :
    (verify : String → String → Verification) (secret : Option String) (key : String)
    (roles : List Role) (r r' : Request)
    → r.is_public ≡ false
    → secret_of secret ≡ ok key
    → guarded verify secret roles r ≡ ok r'
    → IsAdmitted verify key roles r r'
guarded-IsAdmitted verify secret key roles r r' closed known run =
    elim (Result-cases (token_of r.authorization)) [
      | inl (e, none_) ↦ let stop = no_token verify secret roles r r' e closed none_ in absurd cc
      | inr (token, there) ↦ elim (Result-cases (payload_of (verify token key))) [
        | inl (e, bad) ↦
            let stop = no_claims verify secret key roles r token e closed known there bad in
            absurd cc
        | inr (u, good) ↦
            let (listed, same) =
              role_cases roles u (record r { user = some u }) r'
                (sym (guarded_run verify secret key roles r token u closed known there good)
                  ∙ run) in
            record {
              token = token;
              claims = u;
              header = token_of-ok r.authorization token there;
              verified = verified_by (verify token key) u good;
              listed = listed;
              with_user = sym same;
            }
      ]
    ]

admitted_if :
    (verify : String → String → Verification) (secret : Option String) (key : String)
    (roles : List Role) (r r' : Request)
    → r.is_public ≡ false
    → secret_of secret ≡ ok key
    → IsAdmitted verify key roles r r'
    → guarded verify secret roles r ≡ ok r'
unfolding payload_of
admitted_if verify secret key roles r r' closed known h =
    let there : token_of r.authorization ≡ ok h.token =
      ap token_of h.header ∙ read_bearer h.token in
    let good : payload_of (verify h.token key) ≡ ok h.claims = ap payload_of h.verified in
    guarded_run verify secret key roles r h.token h.claims closed known there good
    ∙ ap (λ a. a >>= λ _. ok (record r { user = some h.claims }))
        (role_listed roles h.claims h.listed)
    ∙ ap ok (sym h.with_user)

-- A route that is not public, with the two guards, lets a request in exactly when its header is
-- `Bearer ` and a token, the token verifies under the configured secret, and the role in it is one
-- of the route's; the request then carries what the token says.
pub guarded_iff :
    (verify : String → String → Verification) (secret : Option String) (key : String)
    (roles : List Role) (r r' : Request)
    → r.is_public ≡ false
    → secret_of secret ≡ ok key
    → (guarded verify secret roles r ≡ ok r') ↔ IsAdmitted verify key roles r r'
guarded_iff verify secret key roles r r' closed known = (
  guarded-IsAdmitted verify secret key roles r r' closed known,
  admitted_if verify secret key roles r r' closed known,
)

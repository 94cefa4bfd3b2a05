-- ===== src/Frontend/Session.antt =====
-- src/frontend/src/stores/authStore.ts and api/client.ts: the tokens that the browser keeps, and the
-- request that is sent again after a refresh. One response is handled at a time; the server is an
-- argument: what it answers to a refresh and to a request, and how that changes it.
use tickethub_backend.Common.{
  ℕ, String, ◌<>◌, Bool, true, false, not, ◌&&◌, Option, none, some, ◌==◌, nat_eq, if◌then◌else◌,
}
use tickethub_backend.Shared.Pagination.Keyset.{truthy}
use tickethub_backend.Users.Service.{Tokens, UserResponse}

pub record AuthState : Type 0 where
  pub access_token : Option String
  pub refresh_token : Option String
  pub user : Option UserResponse

abbrev pub signed_out : AuthState
signed_out = record { access_token = none; refresh_token = none; user = none }

unfoldable pub set_auth : Tokens → UserResponse → AuthState → AuthState
set_auth tokens user s = record {
  access_token = some tokens.access_token;
  refresh_token = some tokens.refresh_token;
  user = some user;
}

unfoldable pub update_tokens : Tokens → AuthState → AuthState
update_tokens tokens s = record s {
  access_token = some tokens.access_token;
  refresh_token = some tokens.refresh_token;
}

unfoldable pub clear : AuthState → AuthState
clear s = signed_out

abbrev is_text : Option String → Bool
is_text none = false
is_text (some text) = true

unfoldable pub is_authenticated : AuthState → Bool
is_authenticated s = is_text (truthy s.access_token)

-- The `Authorization` header that the request interceptor sets.
abbrev header_of : Option String → Option String
header_of none = none
header_of (some token) = some ("Bearer " <> token)

unfoldable pub authorization : AuthState → Option String
authorization s = header_of (truthy s.access_token)

-- A request as the interceptor looks at it: `is_auth` if its address has `/auth/refresh` or `/auth/login`.
pub record RetryConfig : Type 0 where
  pub is_retry : Bool
  pub is_auth : Bool
  pub header : Option String

-- An error of a request: the status of its response, if there is one.
pub record RequestError : Type 0 where
  pub status : Option ℕ
  pub message : String

abbrev is_401 : Option ℕ → Bool
is_401 none = false
is_401 (some n) = n == 401

pub data Answer (A : Type 0) : Type 0 where
  resolved : A → Answer A
  rejected : RequestError → Answer A

module _ {S A : Type 0} (post_refresh : String → S → Answer Tokens × S)
    (send : RetryConfig → S → Answer A × S) where
  refresh_with : Option String → AuthState → S → Answer String × AuthState × S
  refresh_with none auth s =
      (rejected (record { status = none; message = "No refresh token" }), signed_out, s)
  refresh_with (some token) auth s =
      let (answer, s') = post_refresh token s in
      elim answer [
        | resolved tokens ↦ (resolved tokens.access_token, update_tokens tokens auth, s')
        | rejected e ↦ (rejected e, auth, s')
      ]

  unfoldable pub perform_refresh : AuthState → S → Answer String × AuthState × S
  unfolding refresh_with
  perform_refresh auth s = refresh_with (truthy auth.refresh_token) auth s

  -- The second handler of the response interceptor; the flag is whether the page is left for the login.
  unfoldable pub on_response_error :
      RequestError → RetryConfig → AuthState → S → Answer A × Bool × AuthState × S
  on_response_error error request auth s =
      let (fresh, auth', s') = perform_refresh auth s in
      if is_401 error.status && (not request.is_retry && not request.is_auth)
      then elim fresh [
        | rejected e ↦ (rejected e, true, clear auth', s')
        | resolved token ↦
            let (answer, s'') =
              send
                (record {
                  is_retry = true;
                  is_auth = request.is_auth;
                  header = some ("Bearer " <> token);
                })
                s' in
            (answer, false, auth', s'')
      ]
      else (rejected error, false, auth, s)

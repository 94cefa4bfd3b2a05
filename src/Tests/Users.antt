-- ===== src/Tests/Users.antt =====
-- One user with one session: tokens, logins and guarded routes.
use tickethub_backend.Common.{
  ◌≡◌, refl, ◌⊎◌, ◌↔◌, String, false, none, some, [], ◌∷◌, string_eq, ==_refl, arith,
}
use tickethub_backend.Errors.{ok, err}
use tickethub_backend.Platform.Memory.{memory, memory-IsLawful}
use tickethub_backend.World.{World}
use tickethub_backend.World.People.{Role}
use tickethub_backend.Shared.Auth.{JwtPayload, Verification, payload, Request, secret_of}
use tickethub_backend.Shared.Auth.Guards.{guarded, IsAdmitted, guarded_iff}
use tickethub_backend.Users.Crypto.{IsSalted}
use tickethub_backend.Users.Service.{
  Tokens, RegisterInput, LoginInput, AuthResponse, bad_credentials, reuse_error, login, register,
  refresh, refresh_stored, refresh_live, rotate, open_session,
}
use tickethub_backend.Users.Service.Rotation.{RefreshOutcome, refresh-Outcome}
use tickethub_backend.Users.Service.Reuse.{IsLockout, refresh-twice}
use tickethub_backend.Users.Service.Renewal.{IsAccepted, refresh_next}
use tickethub_backend.Users.Service.Sessions.{
  IsWrong, IsRight, login_cases, CanLogIn, login-register,
}
use tickethub_backend.Tests.Worlds.{user_world, crypto}

refresh-Outcome_example :
    RefreshOutcome memory-IsLawful crypto "old" user_world (refresh crypto "old" user_world)
refresh-Outcome_example = refresh-Outcome memory-IsLawful crypto "old" user_world

unfoldable rotated_world : World
unfolding memory user_world string_eq refresh
rotated_world = (refresh crypto "old" user_world).1

abbrev new_tokens : Tokens
new_tokens = record { access_token = "u"; refresh_token = "early" }

refresh-twice_example :
    (user_id : String) × IsLockout memory-IsLawful crypto "old" user_id rotated_world
    × ((refresh crypto "early" (refresh crypto "old" rotated_world).1).0 ≡ err reuse_error)
unfolding memory user_world rotated_world string_eq refresh refresh_stored refresh_live rotate
    open_session
refresh-twice_example =
    refresh-twice memory-IsLawful crypto "old" new_tokens user_world rotated_world refl refl

refresh_next_example : IsAccepted memory-IsLawful crypto (refresh crypto "early" rotated_world).0
unfolding memory user_world rotated_world string_eq refresh refresh_stored refresh_live rotate
    open_session
refresh_next_example =
    refresh_next memory-IsLawful crypto "old" new_tokens user_world rotated_world refl refl
      (omega arith)

abbrev wrong_password : LoginInput
wrong_password = record { email = "ada@example.org"; password = "guess" }

login_cases_example :
    (IsWrong memory-IsLawful crypto wrong_password user_world
      × (login crypto wrong_password user_world ≡ (err bad_credentials, user_world)))
    ⊎ IsRight memory-IsLawful crypto wrong_password user_world
login_cases_example = login_cases memory-IsLawful crypto wrong_password user_world

salted : IsSalted crypto
unfolding string_eq
salted = record { verify-hash = λ salt password. ==_refl password }

abbrev bob : RegisterInput
bob = record { email = "bob@example.org"; password = "hidden"; name = "Bob" }

abbrev bob_response : AuthResponse
bob_response = record {
  tokens = record { access_token = "iid"; refresh_token = "early" };
  user = record {
    id = "iid";
    email = "bob@example.org";
    name = "Bob";
    role = Role.user;
    created_at = 1000000;
  };
}

login-register_example :
    CanLogIn memory-IsLawful crypto bob bob_response (register crypto bob user_world).1
unfolding memory user_world string_eq register open_session
login-register_example =
    login-register memory-IsLawful crypto salted bob user_world bob_response
      (register crypto bob user_world).1 refl

abbrev claims : JwtPayload
claims = record { sub = "u"; role = Role.admin; iat = 1; exp = 2 }

abbrev verify : String → String → Verification
verify token key = payload claims

abbrev request : Request
request = record { is_public = false; authorization = some "Bearer abc"; user = none }

abbrev after : Request
after = record request { user = some claims }

guarded_iff_example :
    (guarded verify (some "key") (Role.admin ∷ []) request ≡ ok after)
    ↔ IsAdmitted verify "key" (Role.admin ∷ []) request after
unfolding secret_of
guarded_iff_example =
    guarded_iff verify (some "key") "key" (Role.admin ∷ []) request after refl refl

-- ===== src/Users/Service.antt =====
-- src/modules/users/users.service.ts: registration, login, and refresh tokens that are rotated.
pub mod Rotation
pub mod Reuse
pub mod Renewal
pub mod Sessions
use tickethub_backend.Common.{
  ℕ, suc, ◌+◌, ◌*◌, String, Bool, true, false, not, ◌&&◌, Option, none, some,
}
use tickethub_backend.Common.{◌==◌, string_eq, ltb, if◌then◌else◌}
use tickethub_backend.Platform.{Platform}
use tickethub_backend.Errors.{
  Failure, conflict_error, unauthorized_error, not_found_error, plain_error, unique_violation, ok,
}
use tickethub_backend.World.{
  World, Action, ◌>>=◌, ◌>>◌, pure, throw, gets, modify, or_throw, throw_if, new_date, uuid,
}
use tickethub_backend.World.People.{Role, user, UserRow, user_clash, RefreshTokenRow, same_token}
use tickethub_backend.Users.Crypto.{Crypto}

pub record RegisterInput : Type 0 where
  pub email : String
  pub password : String
  pub name : String

pub record LoginInput : Type 0 where
  pub email : String
  pub password : String

pub record Tokens : Type 0 where
  pub access_token : String
  pub refresh_token : String

pub record UserResponse : Type 0 where
  pub id : String
  pub email : String
  pub name : String
  pub role : Role
  pub created_at : ℕ

pub record AuthResponse : Type 0 where
  pub tokens : Tokens
  pub user : UserResponse

-- `7 * 24 * 60 * 60 * 1000`
abbrev pub refresh_ttl_ms : ℕ
refresh_ttl_ms = 7 * 24 * 60 * 60 * 1000

abbrev pub bad_credentials : Failure
bad_credentials = unauthorized_error "Invalid email or password"

abbrev pub invalid_token : Failure
invalid_token = unauthorized_error "Invalid refresh token"

abbrev pub expired_error : Failure
expired_error = unauthorized_error "Refresh token has expired"

abbrev pub reuse_error : Failure
reuse_error = unauthorized_error "Token reuse detected. Please login again."

-- `formatUser`, with the time as it is stored.
abbrev pub format_user : UserRow → UserResponse
format_user u = record {
  id = u.id;
  email = u.email;
  name = u.name;
  role = u.role;
  created_at = u.created_at;
}

-- `!!existing`, and `revokedAt: null`.
abbrev pub is_some : {A : Type 0} → Option A → Bool
is_some none = false
is_some (some _) = true

-- `where: { email, deletedAt: null }`
abbrev pub has_email : String → UserRow → Bool
has_email email u = u.email == email && not (is_some u.deleted_at)

module _ ⦃p : Platform⦄ where
  -- Randomness of a library, by how much was drawn before.
  unfoldable draw : Action ℕ
  draw w = (ok w.drawn, record w { drawn = suc w.drawn })

  unfoldable insert_user : UserRow → Action (Unit {0})
  insert_user row = do
    table ← gets (λ w. p.create user_clash row w.users)
    table' ← or_throw table (unique_violation "users")
    modify (λ w. record w { users = table' })

  unfoldable insert_token : RefreshTokenRow → Action (Unit {0})
  insert_token row = do
    table ← gets (λ w. p.create same_token row w.refresh_tokens)
    table' ← or_throw table (unique_violation "refresh_tokens")
    modify (λ w. record w { refresh_tokens = table' })

  abbrev pub revoke : ℕ → RefreshTokenRow → RefreshTokenRow
  revoke at r = record r { revoked_at = some at }

  unfoldable revoke_where : (RefreshTokenRow → Bool) → Action (Unit {0})
  unfolding new_date
  revoke_where q = do
    at ← new_date
    modify (λ w. record w { refresh_tokens = (p.update_many q (revoke at) w.refresh_tokens).0 })

  module _ (c : Crypto) where
    unfoldable pub generate_token_pair : String → Role → Action Tokens
    unfolding draw new_date
    generate_token_pair user_id role = do
      now ← new_date
      n ← draw
      pure (record { access_token = c.sign now user_id role; refresh_token = c.random_token n })

    -- The row of a new refresh token; the database draws its identifier and sets its time.
    unfoldable pub store_token : (user_id token : String) → Action (Unit {0})
    unfolding insert_token new_date uuid
    store_token user_id token = do
      now ← new_date
      id ← uuid
      created ← new_date
      insert_token (record {
        id = id;
        user_id = user_id;
        token_hash = c.sha256 token;
        expires_at = now + refresh_ttl_ms;
        revoked_at = none;
        created_at = created;
      })

    -- The last part of `register`, `login` and `refresh`.
    unfoldable pub open_session : String → Role → Action Tokens
    unfolding generate_token_pair store_token
    open_session user_id role = do
      tokens ← generate_token_pair user_id role
      store_token user_id tokens.refresh_token
      pure tokens

    unfoldable pub register : RegisterInput → Action AuthResponse
    unfolding insert_user draw uuid new_date
    register input = do
      existing ← gets (λ w. p.find_first (λ u. u.email == input.email) w.users)
      throw_if (is_some existing) (conflict_error "A user with this email already exists")
      salt ← draw
      id ← uuid
      now ← new_date
      let row : UserRow = record {
        id = id;
        email = input.email;
        password_hash = c.hash salt input.password;
        name = input.name;
        role = user;
        created_at = now;
        deleted_at = none;
      }
      insert_user row
      tokens ← open_session id user
      pure (record { tokens = tokens; user = format_user row })

    -- `login` once the user is found and the password tested.
    unfoldable pub logged_in : UserRow → Action AuthResponse
    logged_in u = do
      tokens ← open_session u.id u.role
      pure (record { tokens = tokens; user = format_user u })

    unfoldable pub login : LoginInput → Action AuthResponse
    login input = do
      found ← gets (λ w. p.find_first (has_email input.email) w.users)
      u ← or_throw found bad_credentials
      throw_if (not (c.verify u.password_hash input.password)) bad_credentials
      logged_in u

    -- `refresh` from the last test on: the old token is revoked, then a new one stored.
    unfoldable pub rotate : RefreshTokenRow → UserRow → Action Tokens
    unfolding revoke_where
    rotate stored u = do revoke_where (λ r. r.id == stored.id); open_session u.id u.role

    -- `refresh` of a token that was revoked before.
    unfoldable pub reuse_detected : RefreshTokenRow → Action Tokens
    unfolding revoke_where
    reuse_detected stored = do revoke_where (λ r. r.user_id == stored.user_id); throw reuse_error

    -- `refresh` of a token that is not revoked.
    unfoldable pub refresh_live : RefreshTokenRow → UserRow → Action Tokens
    unfolding new_date
    refresh_live stored u = do
      now ← new_date
      throw_if (ltb stored.expires_at now) expired_error
      rotate stored u

    -- `refresh` for the token row and its user as they were read.
    unfoldable pub refresh_stored : RefreshTokenRow → UserRow → Action Tokens
    refresh_stored stored u =
        if is_some stored.revoked_at then reuse_detected stored else refresh_live stored u

    unfoldable pub refresh : String → Action Tokens
    refresh token = do
      found ← gets (λ w. p.find_first (λ r. r.token_hash == c.sha256 token) w.refresh_tokens)
      stored ← or_throw found invalid_token
      owner ← gets (λ w. p.find_first (λ u. u.id == stored.user_id) w.users)
      u ← or_throw owner (plain_error "Inconsistent query result: field user is required")
      refresh_stored stored u

    unfoldable pub logout : String → Action (Unit {0})
    unfolding revoke_where
    logout token = revoke_where (λ r. r.token_hash == c.sha256 token && not (is_some r.revoked_at))

  unfoldable pub get_profile : String → Action UserResponse
  get_profile id = do
    found ← gets (λ w. p.find_first (λ u. u.id == id && not (is_some u.deleted_at)) w.users)
    u ← or_throw found (not_found_error "User" (some id))
    pure (format_user u)

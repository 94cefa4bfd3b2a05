-- ===== src/Users/Service/Sessions.antt =====
-- Logging in and out.
use tickethub_backend.Common.{
  suc, ◌≡◌, refl, sym, ◌∙◌, ◌⊎◌, inl, inr, String, Bool, true, false, Option, none, some, ◌==◌,
  string_eq, ==_refl, not, ◌&&◌, arith,
}
use tickethub_backend.Common.{
  [], ◌∷◌, ◌++◌, find, any, if◌then◌else◌, Option-cases, Bool-cases, find-passes, find-update_at,
  find-append_none, absent_weaken,
}
use mathlib.Core.Path.{subst}
use tickethub_backend.Platform.{Platform, IsLawful}
use tickethub_backend.Errors.{Failure, conflict_error, unique_violation, Result, ok, err}
use tickethub_backend.World.{World, ◌>>=◌, pure}
use tickethub_backend.World.People.{UserRow, RefreshTokenRow, user, user_clash}
use tickethub_backend.Users.Crypto.{Crypto, IsSalted}
use tickethub_backend.Users.Service.{
  RegisterInput, LoginInput, AuthResponse, Tokens, revoke, is_some, bad_credentials, has_email,
  logged_in, login, logout, register, insert_user, draw, open_session, format_user, revoke_where,
}
use tickethub_backend.Users.Service.Rotation.{token_row, OpenOutcome, open_session-Outcome}
use tickethub_backend.Users.Service.Reuse.{IsLockout, owner_in, same_owner, revoked-IsLockout}

module _ ⦃p : Platform⦄ (L : IsLawful p) (c : Crypto) where
  -- The user that an address stands for, deleted ones left out.
  abbrev pub user_at : String → World → Option UserRow
  user_at email w = find (has_email email) (p.rows w.users)

  -- Nobody has the address, or the password is wrong.
  abbrev pub IsWrong : LoginInput → World → Type 0
  IsWrong input w =
      (user_at input.email w ≡ none)
      ⊎ ((u : UserRow) × (user_at input.email w ≡ some u)
          × (c.verify u.password_hash input.password ≡ false))

  abbrev pub IsRight : LoginInput → World → Type 0
  IsRight input w =
      (u : UserRow) × (user_at input.email w ≡ some u)
      × (c.verify u.password_hash input.password ≡ true)
      × (login c input w ≡ logged_in c u w)

  -- `login` goes on exactly with the user of the address and his password; an address that nobody
  -- has and a wrong password end alike, with one error, and write nothing.
  pub login_cases :
      (input : LoginInput) (w : World)
      → (IsWrong input w × (login c input w ≡ (err bad_credentials, w))) ⊎ IsRight input w
  unfolding login
  login_cases input w =
      let read = L.find_first-rows (has_email input.email) w.users in
      elim (Option-cases (user_at input.email w)) [
        | inl gone ↦ inl (inl gone, ground (arith, read))
        | inr (u, found) ↦ elim (Bool-cases (c.verify u.password_hash input.password)) [
          | inl right ↦ inr (u, found, right, ground (arith, read))
          | inr wrong ↦ inl (inr (u, found, wrong), ground (arith, read))
        ]
      ]

  -- A refresh token that was logged out is refused from then on as a reused one, and whoever
  -- presents it ends every session of its user.
  pub logout-IsLockout :
      (token : String) (w : World) (stored : RefreshTokenRow) (u : UserRow)
      → token_row L c token w ≡ some stored
      → owner_in L c stored w ≡ some u
      → IsLockout L c token stored.user_id (logout c token w).1
  unfolding logout revoke_where
  logout-IsLockout token w stored u found owned =
      let q : RefreshTokenRow → Bool = λ r. r.token_hash == c.sha256 token in
      let s : RefreshTokenRow → Bool =
        λ r. r.token_hash == c.sha256 token && not (is_some r.revoked_at) in
      let at = p.clock w.readings in
      let w' = (logout c token w).1 in
      let kept =
        find-update_at q s (revoke at) (p.rows w.refresh_tokens) {x = stored} (λ a. refl) found in
      let row : RefreshTokenRow = if s stored then revoke at stored else stored in
      let there : token_row L c token w' ≡ some row =
        rw (L.rows-update_many s (revoke at) w.refresh_tokens) kept in
      let hash = find-passes q (p.rows w.refresh_tokens) {x = stored} found in
      let spent : is_some row.revoked_at ≡ true = ground arith in
      let his : row.user_id ≡ stored.user_id = ground arith in
      subst (λ i. IsLockout L c token i w') his
        (revoked-IsLockout L c token w' row u there spent
          (same_owner L c row.user_id stored.user_id w w' his refl ∙ owned))

  -- The row that `register` writes, and the store after it.
  abbrev new_user : RegisterInput → World → UserRow
  new_user input w = record {
    id = p.uuid (suc w.drawn);
    email = input.email;
    password_hash = c.hash w.drawn input.password;
    name = input.name;
    role = user;
    created_at = p.clock w.readings;
    deleted_at = none;
  }

  abbrev with_user : p.Table UserRow → World → World
  with_user t w = record w { users = t; drawn = suc (suc w.drawn); readings = suc w.readings }

  taken_email : RegisterInput → World → Option UserRow
  taken_email input w = p.find_first (λ u. u.email == input.email) w.users

  register_taken :
      (input : RegisterInput) (w : World) (u : UserRow)
      → taken_email input w ≡ some u
      → (e : Failure) × ((register c input w).0 ≡ err e)
  unfolding register taken_email
  register_taken input w u h =
      (conflict_error "A user with this email already exists", ground arith)

  register_clash :
      (input : RegisterInput) (w : World)
      → taken_email input w ≡ none
      → p.create user_clash (new_user input w) w.users ≡ none
      → (e : Failure) × ((register c input w).0 ≡ err e)
  unfolding register taken_email insert_user draw
  register_clash input w h k = (unique_violation "users", ground arith)

  register_fresh :
      (input : RegisterInput) (w : World) (t : p.Table UserRow)
      → taken_email input w ≡ none
      → p.create user_clash (new_user input w) w.users ≡ some t
      → register c input w
        ≡ (open_session c (p.uuid (suc w.drawn)) user >>= λ tokens.
              pure (record { tokens = tokens; user = format_user (new_user input w) }))
            (with_user t w)
  unfolding register taken_email insert_user draw
  register_fresh input w t h k = ground arith

  -- The user that `register` returned can log in with the same address and password.
  abbrev pub CanLogIn : RegisterInput → AuthResponse → World → Type 0
  CanLogIn input r w =
      (u : UserRow) × (user_at input.email w ≡ some u)
      × (format_user u ≡ r.user)
      × (login c (record { email = input.email; password = input.password }) w ≡ logged_in c u w)

  right_login :
      (input : LoginInput) (w : World) (u : UserRow)
      → user_at input.email w ≡ some u
      → c.verify u.password_hash input.password ≡ true
      → login c input w ≡ logged_in c u w
  unfolding login
  right_login input w u found right =
      ground (arith, L.find_first-rows (has_email input.email) w.users)

  registered :
      (salted : IsSalted c) (input : RegisterInput) (w : World) (t : p.Table UserRow)
      → taken_email input w ≡ none
      → p.rows t ≡ p.rows w.users ++ new_user input w ∷ []
      → (o : Result Tokens × World)
      → OpenOutcome L c
          (p.uuid (suc w.drawn))
          (p.rows w.refresh_tokens)
          (suc w.readings)
          (with_user t w)
          o
      → (r : AuthResponse) (w' : World)
      → ((λ (v : World). o) >>= λ tokens.
            pure (record { tokens = tokens; user = format_user (new_user input w) }))
          w
        ≡ (ok r, w')
      → CanLogIn input r w'
  unfolding taken_email
  registered salted input w t unknown grown (err e, w1) h r w' run = absurd cc
  registered salted input w t unknown grown (ok tokens, w1) (opened, users) r w' run =
      let u = new_user input w in
      let none_before : user_at input.email w ≡ none =
        absent_weaken (λ (v : UserRow). v.email == input.email) (has_email input.email)
          (p.rows w.users) (λ x h. ground arith)
          (ground (arith, L.find_first-rows (λ (v : UserRow). v.email == input.email) w.users)) in
      let here : find (has_email input.email) (u ∷ []) ≡ some u =
        ground (arith, ==_refl input.email) in
      let in_t : find (has_email input.email) (p.rows t) ≡ some u =
        rw grown
          (find-append_none (has_email input.email) (p.rows w.users) (u ∷ []) none_before ∙ here) in
      let same : w'.users ≡ t = let e : w1 ≡ w' = ground arith in rw (← e) users in
      let found : user_at input.email w' ≡ some u = rw same in_t in
      (
        u,
        found,
        ground arith,
        right_login (record { email = input.email; password = input.password }) w' u found
            (salted.verify-hash w.drawn input.password),
      )

  -- Whoever registers can log in at once with the address and the password given: `login` finds the
  -- user that `register` returned and accepts the password. It is assumed of argon2 that a password
  -- verifies against its own hash.
  pub login-register :
      (salted : IsSalted c) (input : RegisterInput) (w : World) (r : AuthResponse) (w' : World)
      → register c input w ≡ (ok r, w')
      → CanLogIn input r w'
  login-register salted input w r w' run = elim (Option-cases (taken_email input w)) [
    | inr (u, taken) ↦ let (e, failed) = register_taken input w u taken in absurd cc
    | inl unknown ↦ elim (Bool-cases (any (user_clash (new_user input w)) (p.rows w.users))) [
      | inl clash ↦
          let (e, failed) =
            register_clash input w unknown
              (L.create_clash user_clash (new_user input w) w.users clash) in
          absurd cc
      | inr fresh ↦
          let (t, made, grown) = L.create_fresh user_clash (new_user input w) w.users fresh in
          registered salted input w t unknown grown
            (open_session c (p.uuid (suc w.drawn)) user (with_user t w))
            (open_session-Outcome L c (p.uuid (suc w.drawn)) user (with_user t w)) r w'
            (sym (register_fresh input w t unknown made) ∙ run)
    ]
  ]

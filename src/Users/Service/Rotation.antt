-- ===== src/Users/Service/Rotation.antt =====
-- What `refresh` does on each of its branches, and what happens to a refresh token that is used twice.
use tickethub_backend.Common.{
  ◌≤◌, ◌<◌, ltb→lt, ℕ, ◌+◌, ◌≡◌, refl, ◌∙◌, ◌⊎◌, inl, inr, String, Bool, true, false, Option, none,
  some, ◌==◌, string_eq, ltb, arith, suc, any,
}
use tickethub_backend.Common.{
  List, [], ◌∷◌, ◌++◌, find, update, Option-cases, Bool-cases, find-passes,
}
use tickethub_backend.Platform.{Platform, IsLawful}
use tickethub_backend.Errors.{
  Failure, unique_violation, plain_error, unauthorized_error, Result, ok, err,
}
use tickethub_backend.World.{World, ◌>>=◌, pure}
use tickethub_backend.World.People.{Role, UserRow, RefreshTokenRow, same_token}
use tickethub_backend.Users.Crypto.{Crypto}
use tickethub_backend.Users.Service.{
  Tokens, refresh_ttl_ms, revoke, is_some, reuse_error, open_session, store_token,
  generate_token_pair, insert_token, rotate, reuse_detected, refresh_live, refresh_stored, refresh,
  invalid_token, revoke_where,
}

module _ ⦃p : Platform⦄ (L : IsLawful p) (c : Crypto) where
  -- A session is opened: one row is added, which holds the hash of the refresh token alone.
  pub record IsOpened (user_id : String) (t : Tokens) (before : List RefreshTokenRow) (at : ℕ)
      (w' : World) : Type 0 where
    pub row : RefreshTokenRow
    pub rows_after : p.rows w'.refresh_tokens ≡ before ++ row ∷ []
    pub of_user : row.user_id ≡ user_id
    pub of_token : row.token_hash ≡ c.sha256 t.refresh_token
    pub is_live : row.revoked_at ≡ none
    pub made_at : ℕ
    pub not_before : at ≤ made_at
    pub life : row.expires_at ≡ p.clock made_at + refresh_ttl_ms

  abbrev pub OpenOutcome :
      String → List RefreshTokenRow → ℕ → (w : World) → Result Tokens × World → Type 0
  OpenOutcome user_id before at w (err e, w') =
      (e ≡ unique_violation "refresh_tokens")
      × (p.rows w'.refresh_tokens ≡ before)
      × (w'.users ≡ w.users)
  OpenOutcome user_id before at w (ok t, w') =
      IsOpened user_id t before at w' × (w'.users ≡ w.users)

  -- `refreshToken.create`: the row is added at the end, or its identifier is taken.
  InsertOutcome : RefreshTokenRow → (w : World) → Result (Unit {0}) × World → Type 0
  InsertOutcome row w (err e, w') =
      (e ≡ unique_violation "refresh_tokens")
      × (p.rows w'.refresh_tokens ≡ p.rows w.refresh_tokens)
      × (w'.users ≡ w.users)
  InsertOutcome row w (ok _, w') =
      (p.rows w'.refresh_tokens ≡ p.rows w.refresh_tokens ++ row ∷ []) × (w'.users ≡ w.users)

  insert_token-Outcome :
      (row : RefreshTokenRow) (w : World) → InsertOutcome row w (insert_token row w)
  unfolding insert_token InsertOutcome
  insert_token-Outcome row w = elim (Bool-cases (any (same_token row) (p.rows w.refresh_tokens))) [
    | inl clash ↦ rw (L.create_clash same_token row w.refresh_tokens clash) (refl, refl, refl)
    | inr fresh ↦
        let (t', made, grown) = L.create_fresh same_token row w.refresh_tokens fresh in
        rw made (grown, refl)
  ]

  session_of :
      (user_id : String) (t : Tokens) (row : RefreshTokenRow) (made at : ℕ) (w : World)
      → at ≤ made
      → row.user_id ≡ user_id
      → row.token_hash ≡ c.sha256 t.refresh_token
      → row.revoked_at ≡ none
      → row.expires_at ≡ p.clock made + refresh_ttl_ms
      → (o : Result (Unit {0}) × World) → InsertOutcome row w o
      → OpenOutcome user_id (p.rows w.refresh_tokens) at w (((λ _. o) >>= λ _. pure t) w)
  unfolding InsertOutcome
  session_of user_id t row made at w late hu ht hr he (err e, w') (which, same, users) =
      (which, same, users)
  session_of user_id t row made at w late hu ht hr he (ok _, w') (grown, users) = (
    record {
      row = row;
      rows_after = grown;
      of_user = hu;
      of_token = ht;
      is_live = hr;
      made_at = made;
      not_before = late;
      life = he;
    },
    users,
  )

  pub open_session-Outcome :
      (user_id : String) (role : Role) (w : World)
      → OpenOutcome user_id (p.rows w.refresh_tokens) w.readings w (open_session c user_id role w)
  unfolding open_session generate_token_pair store_token
  open_session-Outcome user_id role w =
      let w0 = record w { readings = suc (suc (suc w.readings)); drawn = suc (suc w.drawn) } in
      let row : RefreshTokenRow = record {
        id = p.uuid (suc w.drawn);
        user_id = user_id;
        token_hash = c.sha256 (c.random_token w.drawn);
        expires_at = p.clock (suc w.readings) + refresh_ttl_ms;
        revoked_at = none;
        created_at = p.clock (suc (suc w.readings));
      } in
      session_of user_id _ row (suc w.readings) w.readings w0 (omega arith) refl refl refl refl
        (insert_token row w0) (insert_token-Outcome row w0)

  -- The row that a refresh token stands on.
  abbrev pub token_row : String → World → Option RefreshTokenRow
  token_row token w =
      find (λ (r : RefreshTokenRow). r.token_hash == c.sha256 token) (p.rows w.refresh_tokens)

  abbrev pub rows_but_one : RefreshTokenRow → World → List RefreshTokenRow
  rows_but_one stored w =
      update (λ (r : RefreshTokenRow). r.id == stored.id) (revoke (p.clock (suc w.readings)))
        (p.rows w.refresh_tokens)

  abbrev pub rows_without : RefreshTokenRow → World → List RefreshTokenRow
  rows_without stored w =
      update (λ (r : RefreshTokenRow). r.user_id == stored.user_id) (revoke (p.clock w.readings))
        (p.rows w.refresh_tokens)

  -- What a refresh found before it wrote.
  pub record IsStored (token : String) (w : World) (revoked : Bool) (stored : RefreshTokenRow)
      : Type 0 where
    pub found : token_row token w ≡ some stored
    pub state : is_some stored.revoked_at ≡ revoked

  pub record IsRotated (token : String) (w : World) (t : Tokens) (w' : World) : Type 0 where
    pub stored : RefreshTokenRow
    pub is_stored : IsStored token w false stored
    pub in_time : ltb stored.expires_at (p.clock w.readings) ≡ false
    pub opened : IsOpened stored.user_id t (rows_but_one stored w) (suc (suc w.readings)) w'
    pub same_users : w'.users ≡ w.users

  abbrev pub IsCaught : String → World → Failure → World → Type 0
  IsCaught token w e w' =
      (stored : RefreshTokenRow) × IsStored token w true stored
      × (e ≡ reuse_error)
      × (p.rows w'.refresh_tokens ≡ rows_without stored w)

  abbrev pub IsLeftWithout : String → World → Failure → World → Type 0
  IsLeftWithout token w e w' =
      (stored : RefreshTokenRow) × IsStored token w false stored
      × (e ≡ unique_violation "refresh_tokens")
      × (p.rows w'.refresh_tokens ≡ rows_but_one stored w)

  -- The refusals that leave the tokens as they are: the token is unknown, its user is gone, or it was
  -- never revoked and its time is over. A revoked token of a user that is there is none of them.
  abbrev pub IsRefused : String → World → Failure → World → Type 0
  IsRefused token w e w' =
      (p.rows w'.refresh_tokens ≡ p.rows w.refresh_tokens)
      × (((token_row token w ≡ none) × (e ≡ invalid_token))
          ⊎ ((stored : RefreshTokenRow) × (token_row token w ≡ some stored)
              × ((p.find_first (λ u. u.id == stored.user_id) w.users ≡ none)
                  ⊎ ((stored.revoked_at ≡ none)
                      × (stored.expires_at < p.clock w.readings)
                      × (e ≡ unauthorized_error "Refresh token has expired")))))

  abbrev pub RefreshOutcome : String → World → Result Tokens × World → Type 0
  RefreshOutcome token w (ok t, w') = IsRotated token w t w'
  RefreshOutcome token w (err e, w') =
      IsRefused token w e w' ⊎ (IsCaught token w e w' ⊎ IsLeftWithout token w e w')

  never_revoked : (o : Option ℕ) → is_some o ≡ false → o ≡ none
  never_revoked none h = refl
  never_revoked (some t) h = absurd cc

  opened-Outcome :
      (token : String) (stored : RefreshTokenRow) (w w0 : World)
      → IsStored token w false stored
      → ltb stored.expires_at (p.clock w.readings) ≡ false
      → p.rows w0.refresh_tokens ≡ rows_but_one stored w
      → w0.users ≡ w.users
      → (o : Result Tokens × World)
      → OpenOutcome stored.user_id (p.rows w0.refresh_tokens) (suc (suc w.readings)) w0 o
      → RefreshOutcome token w o
  opened-Outcome token stored w w0 is timely rows users (err e, w') (which, same, u) =
      inr (inr (stored, is, which, same ∙ rows))
  opened-Outcome token stored w w0 is timely rows users (ok t, w') (opened, u) = record {
    stored = stored;
    is_stored = is;
    in_time = timely;
    opened = rw (← rows) opened;
    same_users = u ∙ users;
  }

  rotate-Outcome :
      (token : String) (stored : RefreshTokenRow) (u : UserRow) (w : World)
      → u.id ≡ stored.user_id
      → IsStored token w false stored
      → ltb stored.expires_at (p.clock w.readings) ≡ false
      → RefreshOutcome token w (rotate c stored u (record w { readings = suc w.readings }))
  unfolding rotate revoke_where
  rotate-Outcome token stored u w owner is timely =
      let w0 : World = record w {
        readings = suc (suc w.readings);
        refresh_tokens =
            (p.update_many (λ (r : RefreshTokenRow). r.id == stored.id)
              (revoke (p.clock (suc w.readings))) w.refresh_tokens).0;
      } in
      opened-Outcome token stored w w0 is timely (L.rows-update_many _ _ w.refresh_tokens) refl
        (open_session c u.id u.role w0) (rw (← owner) (open_session-Outcome u.id u.role w0))

  live-Outcome :
      (token : String) (stored : RefreshTokenRow) (u : UserRow) (w : World)
      → u.id ≡ stored.user_id
      → IsStored token w false stored
      → RefreshOutcome token w (refresh_live c stored u w)
  unfolding refresh_live
  live-Outcome token stored u w owner is =
      elim (Bool-cases (ltb stored.expires_at (p.clock w.readings))) [
        | inl late ↦ rw late (
            inl (
              refl,
              inr (
                stored,
                is.found,
                inr (
                  never_revoked stored.revoked_at is.state,
                  ltb→lt stored.expires_at (p.clock w.readings) late,
                  refl,
                ),
              ),
            ))
        | inr timely ↦ rw timely (rotate-Outcome token stored u w owner is timely)
      ]

  stored-Outcome :
      (token : String) (stored : RefreshTokenRow) (u : UserRow) (w : World)
      → u.id ≡ stored.user_id
      → token_row token w ≡ some stored
      → RefreshOutcome token w (refresh_stored c stored u w)
  unfolding refresh_stored reuse_detected revoke_where
  stored-Outcome token stored u w owner found = elim (Bool-cases (is_some stored.revoked_at)) [
    | inl again ↦ rw again (
        inr (
          inl (
            stored,
            record { found = found; state = again },
            refl,
            L.rows-update_many _ _ w.refresh_tokens,
          )))
    | inr live ↦
        rw live (live-Outcome token stored u w owner (record { found = found; state = live }))
  ]

  owner_of :
      (user_id : String) (w : World) (u : UserRow)
      → p.find_first (λ u. u.id == user_id) w.users ≡ some u
      → u.id ≡ user_id
  owner_of user_id w u h = ground (
    arith,
    find-passes (λ (u : UserRow). u.id == user_id) (p.rows w.users) {x = u},
    L.find_first-rows (λ (u : UserRow). u.id == user_id) w.users,
  )

  -- The step on a refresh token that is found: its user is read too.
  pub refresh_found :
      (token : String) (w : World) (stored : RefreshTokenRow) (u : UserRow)
      → token_row token w ≡ some stored
      → p.find_first (λ u. u.id == stored.user_id) w.users ≡ some u
      → refresh c token w ≡ refresh_stored c stored u w
  unfolding refresh
  refresh_found token w stored u h k = ground (
    arith,
    L.find_first-rows (λ (r : RefreshTokenRow). r.token_hash == c.sha256 token) w.refresh_tokens,
  )

  pub refresh_lost :
      (token : String) (w : World)
      → (token_row token w ≡ none)
        ⊎ ((stored : RefreshTokenRow) × (token_row token w ≡ some stored)
            × (p.find_first (λ u. u.id == stored.user_id) w.users ≡ none))
      → (e : Failure) × IsRefused token w e w × (refresh c token w ≡ (err e, w))
  unfolding refresh
  refresh_lost token w (inl h) = (
    invalid_token,
    (refl, inl (h, refl)),
    ground (
      arith,
      L.find_first-rows (λ (r : RefreshTokenRow). r.token_hash == c.sha256 token) w.refresh_tokens,
    ),
  )
  refresh_lost token w (inr (stored, h, k)) = (
    plain_error "Inconsistent query result: field user is required",
    (refl, inr (stored, h, inl k)),
    ground (
      arith,
      L.find_first-rows (λ (r : RefreshTokenRow). r.token_hash == c.sha256 token) w.refresh_tokens,
    ),
  )

  -- `refresh` ends in one of four ways. It refuses and leaves the tokens as they are, which happens
  -- only if the token is unknown, its user is gone, or it was never revoked and its time is over; or
  -- the token was revoked before, and every token of its user is revoked; or it was live and in time,
  -- its row
  -- is revoked, and one new row of the same user holds the hash of the new token; or that row could
  -- not be written, and the old token is revoked all the same.
  pub refresh-Outcome : (token : String) (w : World) → RefreshOutcome token w (refresh c token w)
  refresh-Outcome token w = elim (Option-cases (token_row token w)) [
    | inl gone ↦ let (e, why, is) = refresh_lost token w (inl gone) in rw is (inl why)
    | inr (stored, found) ↦
        elim (Option-cases (p.find_first (λ u. u.id == stored.user_id) w.users)) [
          | inl alone ↦
              let (e, why, is) = refresh_lost token w (inr (stored, found, alone)) in
              rw is (inl why)
          | inr (u, owned) ↦
              rw (refresh_found token w stored u found owned)
                (stored-Outcome token stored u w (owner_of stored.user_id w u owned) found)
        ]
  ]

-- ===== src/Users/Service/Reuse.antt =====
-- A refresh token that is used twice.
use tickethub_backend.Common.{
  ℕ, ◌≡◌, refl, ap, ◌∙◌, inl, inr, String, Bool, true, Option, none, some, ◌==◌, string_eq, ==_refl,
  not, ◌&&◌, arith, suc,
}
use tickethub_backend.Common.{
  List, [], ◌∷◌, find, count, update, if◌then◌else◌, Option-cases, find-update_at,
  find-update_absent, find-append_some, find-append_none, count-update_zero,
}
use mathlib.Core.Path.{subst}
use tickethub_backend.Platform.{Platform, IsLawful}
use tickethub_backend.Errors.{ok, err}
use tickethub_backend.World.{World}
use tickethub_backend.World.People.{UserRow, RefreshTokenRow}
use tickethub_backend.Users.Crypto.{Crypto}
use tickethub_backend.Users.Service.{
  Tokens, revoke, is_some, reuse_error, reuse_detected, refresh_live, refresh_stored, refresh,
  revoke_where,
}
use tickethub_backend.Users.Service.Rotation.{
  IsRotated, token_row, rows_but_one, rows_without, refresh-Outcome, refresh_found, refresh_lost,
  RefreshOutcome,
}

module _ ⦃p : Platform⦄ (L : IsLawful p) (c : Crypto) where
  -- How many refresh tokens of a user are not revoked.
  abbrev pub live_tokens : String → World → ℕ
  live_tokens user_id w =
      count (λ (r : RefreshTokenRow). r.user_id == user_id && not (is_some r.revoked_at))
        (p.rows w.refresh_tokens)

  abbrev pub owner_in : RefreshTokenRow → World → Option UserRow
  owner_in stored w = p.find_first (λ u. u.id == stored.user_id) w.users

  -- A revoked token is refused, and takes the user's other tokens with it.
  pub record IsLockout (token : String) (user_id : String) (w : World) : Type 0 where
    pub refused : (refresh c token w).0 ≡ err reuse_error
    pub none_left : live_tokens user_id (refresh c token w).1 ≡ 0
    pub rows_after :
        (stored : RefreshTokenRow) × (stored.user_id ≡ user_id)
        × (p.rows (refresh c token w).1.refresh_tokens ≡ rows_without L c stored w)
    pub same_users : (refresh c token w).1.users ≡ w.users

  -- The user is looked up in the same table, by the same identifier.
  pub same_owner :
      (i j : String) (w w' : World)
      → i ≡ j
      → w'.users ≡ w.users
      → p.find_first (λ (v : UserRow). v.id == i) w'.users
        ≡ p.find_first (λ (v : UserRow). v.id == j) w.users
  same_owner i j w w' h k =
      ap (λ us. p.find_first (λ (v : UserRow). v.id == i) us) k
      ∙ ap (λ a. p.find_first (λ (v : UserRow). v.id == a) w.users) h

  none_live :
      (user_id : String) (at : ℕ) (rs : List RefreshTokenRow)
      → count
          (λ (r : RefreshTokenRow). r.user_id == user_id && not (is_some r.revoked_at))
          (update (λ (r : RefreshTokenRow). r.user_id == user_id) (revoke at) rs)
        ≡ 0
  none_live user_id at rs =
      count-update_zero (λ (r : RefreshTokenRow). r.user_id == user_id)
        (λ (r : RefreshTokenRow). r.user_id == user_id && not (is_some r.revoked_at)) (revoke at) rs
        (λ x h. ground arith) (λ x h. ground arith)

  pub revoked-IsLockout :
      (token : String) (w : World) (stored : RefreshTokenRow) (u : UserRow)
      → token_row L c token w ≡ some stored
      → is_some stored.revoked_at ≡ true
      → owner_in stored w ≡ some u
      → IsLockout token stored.user_id w
  unfolding refresh_stored reuse_detected revoke_where
  revoked-IsLockout token w stored u found again owned =
      let rows =
        L.rows-update_many (λ (r : RefreshTokenRow). r.user_id == stored.user_id)
          (revoke (p.clock w.readings)) w.refresh_tokens in
      let run : refresh c token w ≡ reuse_detected c stored w =
        refresh_found L c token w stored u found owned
        ∙ ap (λ b. (if b then reuse_detected c stored else refresh_live c stored u) w) again in
      record {
        refused = rw run refl;
        none_left =
            rw run
              (rw rows (none_live stored.user_id (p.clock w.readings) (p.rows w.refresh_tokens)));
        rows_after = (stored, refl, rw run rows);
        same_users = rw run refl;
      }

  -- The rows after a rotation: the old token's row is revoked, the new one's stands at the end.
  rotated_old :
      (token : String) (t : Tokens) (w w1 : World) (h : IsRotated L c token w t w1)
      → (r : RefreshTokenRow) × (token_row L c token w1 ≡ some r)
        × (is_some r.revoked_at ≡ true)
        × (r.user_id ≡ h.stored.user_id)
  rotated_old token t w w1 h =
      let old = h.stored in
      let q : RefreshTokenRow → Bool = λ r. r.token_hash == c.sha256 token in
      let s : RefreshTokenRow → Bool = λ r. r.id == old.id in
      let at = p.clock (suc w.readings) in
      let kept =
        find-update_at q s (revoke at) (p.rows w.refresh_tokens) {x = old} (λ a. refl)
          h.is_stored.found in
      let kept' : find q (rows_but_one L c old w) ≡ some (revoke at old) =
        ground (arith, kept, ==_refl old.id) in
      (
        revoke at old,
        rw h.opened.rows_after (
            find-append_some q (rows_but_one L c old w) (h.opened.row ∷ []) {x = revoke at old}
              kept'),
        refl,
        refl,
      )

  pub rotated_new :
      (token : String) (t : Tokens) (w w1 : World) (h : IsRotated L c token w t w1)
      → token_row L c t.refresh_token w ≡ none
      → (r : RefreshTokenRow) × (token_row L c t.refresh_token w1 ≡ some r)
        × (r.user_id ≡ h.stored.user_id)
        × (r ≡ h.opened.row)
  rotated_new token t w w1 h fresh =
      let q : RefreshTokenRow → Bool = λ r. r.token_hash == c.sha256 t.refresh_token in
      let s : RefreshTokenRow → Bool = λ r. r.id == h.stored.id in
      let new = h.opened.row in
      let absent : find q (rows_but_one L c h.stored w) ≡ none =
        find-update_absent q s (revoke (p.clock (suc w.readings))) (p.rows w.refresh_tokens)
          (λ a. refl) fresh in
      let there : find q (new ∷ []) ≡ some new =
        ground (arith, h.opened.of_token, ==_refl (c.sha256 t.refresh_token)) in
      (
        new,
        rw h.opened.rows_after
            (find-append_none q (rows_but_one L c h.stored w) (new ∷ []) absent ∙ there),
        h.opened.of_user,
        refl,
      )

  -- After a lockout, a token of that user is refused for the same reason.
  locked_out :
      (token new : String) (user_id : String) (w : World) (r : RefreshTokenRow) (u : UserRow)
      → IsLockout token user_id w
      → token_row L c new w ≡ some r
      → r.user_id ≡ user_id
      → p.find_first (λ u. u.id == user_id) w.users ≡ some u
      → (refresh c new (refresh c token w).1).0 ≡ err reuse_error
  locked_out token new user_id w r u h there mine owned =
      let (stored, same, rows) = h.rows_after in
      let q : RefreshTokenRow → Bool = λ a. a.token_hash == c.sha256 new in
      let s : RefreshTokenRow → Bool = λ a. a.user_id == stored.user_id in
      let at = p.clock w.readings in
      let w2 = (refresh c token w).1 in
      let found =
        find-update_at q s (revoke at) (p.rows w.refresh_tokens) {x = r} (λ a. refl) there in
      let found' : token_row L c new w2 ≡ some (revoke at r) =
        rw rows (ground (arith, found, mine, same, ==_refl user_id)) in
      let owned' : owner_in (revoke at r) w2 ≡ some u =
        same_owner r.user_id user_id w w2 mine h.same_users ∙ owned in
      (revoked-IsLockout new w2 (revoke at r) u found' refl owned').refused

  -- After a successful refresh, the old token is refused as reused, and then no refresh token of
  -- its user is live any more: the one that the refresh gave is refused as well. It is assumed that
  -- no row had the hash of that new token before.
  pub refresh-twice :
      (token : String) (t : Tokens) (w w1 : World)
      → refresh c token w ≡ (ok t, w1)
      → token_row L c t.refresh_token w ≡ none
      → (user_id : String) × IsLockout token user_id w1
        × ((refresh c t.refresh_token (refresh c token w1).1).0 ≡ err reuse_error)
  refresh-twice token t w w1 run fresh =
      let h : IsRotated L c token w t w1 =
        subst (RefreshOutcome L c token w) run (refresh-Outcome L c token w) in
      let (old, at_old, spent, his) = rotated_old token t w w1 h in
      let (new, at_new, also, is_new) = rotated_new token t w w1 h fresh in
      elim (Option-cases (owner_in h.stored w)) [
        | inl alone ↦
            let (e, _, failed) =
              refresh_lost L c token w (inr (h.stored, h.is_stored.found, alone)) in
            absurd cc
        | inr (u, owned) ↦
            let owned1 : owner_in h.stored w1 ≡ some u =
              same_owner h.stored.user_id h.stored.user_id w w1 refl h.same_users ∙ owned in
            let out : IsLockout token h.stored.user_id w1 = rw (← his) (
              revoked-IsLockout token w1 old u at_old spent
                (same_owner old.user_id h.stored.user_id w1 w1 his refl ∙ owned1)) in
            (
              h.stored.user_id,
              out,
              locked_out token t.refresh_token h.stored.user_id w1 new u out at_new also owned1,
            )
      ]

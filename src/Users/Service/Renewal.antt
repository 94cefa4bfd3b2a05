-- ===== src/Users/Service/Renewal.antt =====
-- The refresh token that a refresh gives, presented for the next one.
use tickethub_backend.Common.{
  ◌≤◌, ◌+◌, ℕ, ◌≡◌, ap, ◌∙◌, inl, inr, String, false, none, some, ◌==◌, string_eq, ltb, arith, suc,
}
use tickethub_backend.Common.{List, if◌then◌else◌, Option-cases}
use mathlib.Core.Path.{subst}
use tickethub_backend.Platform.{Platform, IsLawful}
use tickethub_backend.Errors.{ok, err, Result, unique_violation}
use tickethub_backend.World.{World, throw_if, ◌>>=◌}
use tickethub_backend.World.People.{UserRow, RefreshTokenRow}
use tickethub_backend.Users.Crypto.{Crypto}
use tickethub_backend.Users.Service.{
  Tokens, refresh_ttl_ms, revoke, is_some, expired_error, reuse_detected, refresh_live,
  refresh_stored, refresh, rotate, open_session, revoke_where,
}
use tickethub_backend.Users.Service.Rotation.{
  IsRotated, token_row, OpenOutcome, open_session-Outcome, refresh-Outcome, refresh_found,
  refresh_lost, RefreshOutcome,
}
use tickethub_backend.Users.Service.Reuse.{owner_in, same_owner, rotated_new}

module _ ⦃p : Platform⦄ (L : IsLawful p) (c : Crypto) where
  -- A token that is found, not revoked and in time is not refused: only the insertion of the next
  -- row can fail.
  pub data IsAccepted : Result Tokens → Type 0 where
    renewed : (t : Tokens) → IsAccepted (ok t)
    not_written : IsAccepted (err (unique_violation "refresh_tokens"))

  opened-IsAccepted :
      (user_id : String) (before : List RefreshTokenRow) (at : ℕ) (w : World)
      (o : Result Tokens × World)
      → OpenOutcome L c user_id before at w o
      → IsAccepted o.0
  opened-IsAccepted user_id before at w (ok t, w') h = renewed t
  opened-IsAccepted user_id before at w (err e, w') (which, same, users) = rw which not_written

  live-IsAccepted :
      (token : String) (w : World) (stored : RefreshTokenRow) (u : UserRow)
      → token_row L c token w ≡ some stored
      → is_some stored.revoked_at ≡ false
      → ltb stored.expires_at (p.clock w.readings) ≡ false
      → owner_in L c stored w ≡ some u
      → IsAccepted (refresh c token w).0
  unfolding refresh_stored refresh_live rotate revoke_where
  live-IsAccepted token w stored u found live timely owned =
      let w0 : World = record w {
        readings = suc (suc w.readings);
        refresh_tokens =
            (p.update_many (λ (r : RefreshTokenRow). r.id == stored.id)
              (revoke (p.clock (suc w.readings))) w.refresh_tokens).0;
      } in
      let run : refresh c token w ≡ open_session c u.id u.role w0 =
        refresh_found L c token w stored u found owned
        ∙ ap (λ b. (if b then reuse_detected c stored else refresh_live c stored u) w) live
        ∙ ap
            (λ b.
              (throw_if b expired_error >>= λ _. rotate c stored u)
                (record w { readings = suc w.readings }))
            timely in
      rw run (
        opened-IsAccepted u.id (p.rows w0.refresh_tokens) w0.readings w0
          (open_session c u.id u.role w0) (open_session-Outcome L c u.id u.role w0))

  -- The token that a refresh gives is good for the next refresh, for seven days from the first:
  -- it is not refused, and only a clash of identifiers can keep its successor from being stored.
  -- It is assumed that no row had the hash of that new token before.
  pub refresh_next :
      (token : String) (t : Tokens) (w w1 : World)
      → refresh c token w ≡ (ok t, w1)
      → token_row L c t.refresh_token w ≡ none
      → p.clock w1.readings ≤ p.clock w.readings + refresh_ttl_ms
      → IsAccepted (refresh c t.refresh_token w1).0
  refresh_next token t w w1 run fresh soon =
      let h : IsRotated L c token w t w1 =
        subst (RefreshOutcome L c token w) run (refresh-Outcome L c token w) in
      let (new, at_new, also, is_new) = rotated_new L c token t w w1 h fresh in
      elim (Option-cases (owner_in L c h.stored w)) [
        | inl alone ↦
            let (e, _, failed) =
              refresh_lost L c token w (inr (h.stored, h.is_stored.found, alone)) in
            absurd cc
        | inr (u, owned) ↦
            let after : p.clock w.readings ≤ p.clock h.opened.made_at =
              L.clock_mono w.readings h.opened.made_at (omega (arith, h.opened.not_before)) in
            let timely : ltb new.expires_at (p.clock w1.readings) ≡ false = ground (
              arith,
              soon,
              after,
              h.opened.life,
              ap (λ (r : RefreshTokenRow). r.expires_at) is_new,
            ) in
            live-IsAccepted t.refresh_token w1 new u at_new
              (ap (λ (r : RefreshTokenRow). is_some r.revoked_at) is_new
                ∙ ap is_some h.opened.is_live)
              timely (same_owner L c new.user_id h.stored.user_id w w1 also h.same_users ∙ owned)
      ]

-- ===== src/Booking/Repository/Concurrency.antt =====
-- Optimistic concurrency: what `updateReservation` writes, and who loses a race.
use tickethub_backend.Common.{◌≡◌, ◌≢◌, ◌⊎◌, inl, inr, ◌==◌, string_eq, nat_eq, arith}
use tickethub_backend.Common.{
  count, update, update-count_zero, count-update_zero, if◌then◌else◌, Bool-cases,
}
use tickethub_backend.Platform.{Platform, IsLawful}
use tickethub_backend.Errors.{ok, err}
use tickethub_backend.World.{World}
use tickethub_backend.Booking.Reservation.{Reservation, to_persistence}
use tickethub_backend.Booking.Repository.{is_previous, overwrite, stale_error, update_reservation}

module _ ⦃p : Platform⦄ (L : IsLawful p) where
  -- The call as one equation: the write, and the test of how many rows it met.
  pub update_reservation_lem :
      (r : Reservation) (w : World)
      → let d = to_persistence r in
        update_reservation r w ≡ (
          if count (is_previous d) (p.rows w.reservations) == 0 then err stale_error else ok tt,
          record w {
            reservations = (p.update_many (is_previous d) (overwrite d) w.reservations).0;
          },
        )
  unfolding update_reservation
  update_reservation_lem r w =
      let d = to_persistence r in
      rw L.count-update_many
        (elim (Bool-cases (count (is_previous d) (p.rows w.reservations) == 0)) [
          | inl missing ↦ rw missing
          | inr found ↦ rw found
        ])

  -- `updateReservation` writes the status, the version and the times to the row of the version
  -- before, and throws the conflict error exactly when there is no such row; then no row changes.
  pub update_reservation_cases :
      (r : Reservation) (w : World)
      → let d = to_persistence r in
        let before = p.rows w.reservations in
        let (res, w') = update_reservation r w in
        ((count (is_previous d) before ≡ 0)
          × (res ≡ err stale_error)
          × (p.rows w'.reservations ≡ before))
        ⊎ ((count (is_previous d) before ≢ 0)
            × (res ≡ ok tt)
            × (p.rows w'.reservations ≡ update (is_previous d) (overwrite d) before))
  update_reservation_cases r w =
      let d = to_persistence r in
      rw update_reservation_lem (
        ground (
          arith,
          L.rows-update_many (is_previous d) (overwrite d) w.reservations,
          update-count_zero (is_previous d) (overwrite d) (p.rows w.reservations),
        ))

  -- Two processes that loaded one version of a reservation cannot both write: once the first has
  -- succeeded, the second gets the conflict error and changes no row.
  pub update_reservation_race :
      (r s : Reservation) (w w' : World)
      → r.props.id ≡ s.props.id
      → r.props.version ≡ s.props.version
      → update_reservation r w ≡ (ok tt, w')
      → let (res, w'') = update_reservation s w' in
        (res ≡ err stale_error) × (p.rows w''.reservations ≡ p.rows w'.reservations)
  unfolding to_persistence
  update_reservation_race r s w w' same_id same_version first =
      let d = to_persistence r in
      let e = to_persistence s in
      let none_left : count (is_previous e)
            (update (is_previous d) (overwrite d) (p.rows w.reservations))
          ≡ 0 =
        count-update_zero (is_previous d) (is_previous e) (overwrite d) (p.rows w.reservations)
          (λ x h. ground arith) (λ x h. ground arith) in
      ground (arith, update_reservation_cases r w, update_reservation_cases s w')

-- ===== src/Booking/Service/Loading.antt =====
-- How the calls of the booking service begin: they load a reservation and test its owner.
use tickethub_backend.Common.{
  ◌≡◌, ◌⊎◌, inl, inr, String, some, ◌==◌, string_eq, arith, Option-cases, Bool-cases,
}
use tickethub_backend.Platform.{Platform, IsLawful}
use tickethub_backend.Errors.{ok, err, Failure, not_found_error, forbidden_error}
use tickethub_backend.World.{World}
use tickethub_backend.World.Rows.{ReservationRow, EventRow}
use tickethub_backend.Booking.Repository.Stored.{
  row_at, event_at, reservation_of, missing_event, find_by_id_lem,
}
use tickethub_backend.Booking.Service.{load_own}

module _ ⦃p : Platform⦄ (L : IsLawful p) where
  abbrev pub Loads : (user_id id : String) → World → Type 0
  Loads user_id id w =
      (row : ReservationRow) × (e : EventRow) × (row_at id w ≡ some row)
      × (event_at row.event_id w ≡ some e)
      × (row.user_id ≡ user_id)
      × (load_own user_id id w ≡ (ok (reservation_of w row e), w))

  -- The call throws and changes nothing, or it finds the user's own row and its event.
  pub load_own_cases :
      (user_id id : String) (w : World)
      → ((e : Failure) × (load_own user_id id w ≡ (err e, w))) ⊎ Loads user_id id w
  unfolding load_own
  load_own_cases user_id id w = elim (Option-cases (row_at id w)) [
    | inl missing ↦
        inl (not_found_error "Reservation" (some id), ground (arith, find_by_id_lem L id w))
    | inr (row, found) ↦ elim (Option-cases (event_at row.event_id w)) [
      | inl missing ↦ inl (missing_event, ground (arith, find_by_id_lem L id w))
      | inr (e, listed) ↦ elim (Bool-cases (row.user_id == user_id)) [
        | inl own ↦ inr (row, e, found, listed, ground arith, ground (arith, find_by_id_lem L id w))
        | inr other ↦
            inl (
              forbidden_error "This is not your reservation",
              ground (arith, find_by_id_lem L id w),
            )
      ]
    ]
  ]

  pub load_own_found :
      (user_id id : String) (row : ReservationRow) (e : EventRow) (w : World)
      → row_at id w ≡ some row
      → event_at row.event_id w ≡ some e
      → row.user_id ≡ user_id
      → load_own user_id id w ≡ (ok (reservation_of w row e), w)
  unfolding load_own
  load_own_found user_id id row e w found listed own = ground (arith, find_by_id_lem L id w)

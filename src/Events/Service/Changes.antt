-- ===== src/Events/Service/Changes.antt =====
-- Changing and removing an event: who may, what is written, and what is read afterwards.
use tickethub_backend.Common.{
  suc, ◌≡◌, refl, ap, ◌∙◌, ◌⊎◌, inl, inr, String, true, false, Option, none, some, ◌==◌, string_eq,
  arith,
}
use tickethub_backend.Common.{find, update, Option-cases, Bool-cases, absent_weaken}
use tickethub_backend.Platform.{Platform, IsLawful}
use tickethub_backend.Errors.{Failure, forbidden_error, Result, ok, err, Result-cases}
use tickethub_backend.World.{World}
use tickethub_backend.World.Rows.{EventRow}
use tickethub_backend.World.People.{Role}
use tickethub_backend.Shared.Cache
use tickethub_backend.Shared.Pagination.Keyset.{Dates}
use tickethub_backend.Events.Repository
use tickethub_backend.Events.Repository.{EventDetail, is_event, detail, deleted}
use tickethub_backend.Events.Service
use tickethub_backend.Events.Service.{
  UpdateEventInput, changes, changed, given_date, may_not, is_admin, event_missing, cache_key,
  own_event, remove,
}
use tickethub_backend.Events.Service.Patch.{IsPatch, changes-IsPatch}

module _ ⦃p : Platform⦄ (L : IsLawful p) (dates : Dates) where
  -- The event of an identifier, if it is not deleted.
  abbrev pub event_at : String → World → Option EventRow
  event_at id w = find (is_event id) (p.rows w.events)

  -- The row of an identifier, deleted or not.
  abbrev pub row_at : String → World → Option EventRow
  row_at id w = find (λ (e : EventRow). e.id == id) (p.rows w.events)

  -- The organizer of the event or an administrator changed its row, and no other row of the table;
  -- the cache has nothing for the event any more.
  pub record IsChange (id user_id : String) (role : Role) (f : EventRow → EventRow) (w w' : World)
      : Type 0 where
    pub row : EventRow
    pub found : event_at id w ≡ some row
    pub allowed : (row.organizer_id ≡ user_id) ⊎ (is_admin role ≡ true)
    pub rows_after : p.rows w'.events ≡ update (λ (e : EventRow). e.id == id) f (p.rows w.events)
    pub uncached : w'.redis ≡ p.redis_del (cache_key id) w.redis
    pub same_venues : w'.venues ≡ w.venues

  abbrev pub UpdateOutcome :
      (id user_id : String)
      → Role
      → UpdateEventInput
      → (w : World) → Result EventRow × World
      → Type 0
  UpdateOutcome id user_id role input w (err e, w') = w' ≡ w
  UpdateOutcome id user_id role input w (ok r, w') =
      (f : EventRow → EventRow) × IsChange id user_id role f w w'
      × (changes dates input ≡ ok f)
      × IsPatch dates input f
      × ((row : EventRow) × (row_at id w ≡ some row) × (r ≡ f row))

  is_allowed :
      (w : World) (e : EventRow) (user_id : String) (role : Role)
      → may_not (detail w e) user_id role ≡ false
      → (e.organizer_id ≡ user_id) ⊎ (is_admin role ≡ true)
  is_allowed w e user_id role h = ground arith

  -- What comes before the write.
  own_missing :
      (id user_id : String) (role : Role) (message : String) (w : World)
      → event_at id w ≡ none
      → own_event dates id user_id role message w ≡ (err (event_missing id), w)
  unfolding own_event Repository.find_by_id
  own_missing id user_id role message w h = ground (arith, L.find_first-rows (is_event id) w.events)

  own_refused :
      (id user_id : String) (role : Role) (message : String) (w : World) (e : EventRow)
      → event_at id w ≡ some e
      → may_not (detail w e) user_id role ≡ true
      → own_event dates id user_id role message w ≡ (err (forbidden_error message), w)
  unfolding own_event Repository.find_by_id
  own_refused id user_id role message w e h k =
      ground (arith, L.find_first-rows (is_event id) w.events)

  own_ok :
      (id user_id : String) (role : Role) (message : String) (w : World) (e : EventRow)
      → event_at id w ≡ some e
      → may_not (detail w e) user_id role ≡ false
      → own_event dates id user_id role message w ≡ (ok (detail w e), w)
  unfolding own_event Repository.find_by_id
  own_ok id user_id role message w e h k = ground (arith, L.find_first-rows (is_event id) w.events)

  OwnCases : (id user_id : String) → Role → String → World → Type 0
  OwnCases id user_id role message w =
      ((e : Failure) × (own_event dates id user_id role message w ≡ (err e, w)))
      ⊎ ((row : EventRow) × (event_at id w ≡ some row)
          × ((row.organizer_id ≡ user_id) ⊎ (is_admin role ≡ true))
          × (own_event dates id user_id role message w ≡ (ok (detail w row), w)))

  own_cases :
      (id user_id : String) (role : Role) (message : String) (w : World)
      → OwnCases id user_id role message w
  unfolding OwnCases
  own_cases id user_id role message w = elim (Option-cases (event_at id w)) [
    | inl gone ↦ inl (event_missing id, own_missing id user_id role message w gone)
    | inr (row, found) ↦ elim (Bool-cases (may_not (detail w row) user_id role)) [
      | inl refused ↦
          inl (forbidden_error message, own_refused id user_id role message w row found refused)
      | inr may ↦ inr (
        row,
        found,
        is_allowed w row user_id role may,
        own_ok id user_id role message w row found may,
      )
    ]
  ]

  -- A row that is not deleted is found without that test too.
  row_exists :
      (id : String) (w : World) (row : EventRow)
      → event_at id w ≡ some row
      → (r : EventRow) × (row_at id w ≡ some r)
  row_exists id w row found = elim (Option-cases (row_at id w)) [
    | inl none_ ↦
        let gone =
          absent_weaken (λ (e : EventRow). e.id == id) (is_event id) (p.rows w.events)
            (λ x h. ground arith) none_ in
        absurd cc
    | inr there ↦ there
  ]

  abbrev written : String → (EventRow → EventRow) → World → World
  written id f w = record w {
    events = (p.update_many (λ (e : EventRow). e.id == id) f w.events).0;
    redis = p.redis_del (cache_key id) w.redis;
  }

  written-IsChange :
      (id user_id : String) (role : Role) (f : EventRow → EventRow) (w w0 : World) (row : EventRow)
      → event_at id w ≡ some row
      → (row.organizer_id ≡ user_id) ⊎ (is_admin role ≡ true)
      → w0.events ≡ w.events
      → w0.redis ≡ w.redis
      → w0.venues ≡ w.venues
      → IsChange id user_id role f w (written id f w0)
  written-IsChange id user_id role f w w0 row found may events redis venues = record {
    row = row;
    found = found;
    allowed = may;
    rows_after =
        L.rows-update_many (λ (e : EventRow). e.id == id) f w0.events
        ∙ ap (λ t. update (λ (e : EventRow). e.id == id) f (p.rows t)) events;
    uncached = ap (p.redis_del (cache_key id)) redis;
    same_venues = venues;
  }

  update_invalid :
      (id user_id : String) (role : Role) (input : UpdateEventInput) (w : World) (d : EventDetail)
      (e : Failure)
      → own_event dates id user_id role "You can only update your own events" w ≡ (ok d, w)
      → changes dates input ≡ err e
      → Service.update dates id user_id role input w ≡ (err e, w)
  unfolding Service.update Repository.update
  update_invalid id user_id role input w d e own bad = ground arith

  update_valid :
      (id user_id : String) (role : Role) (input : UpdateEventInput) (w : World) (d : EventDetail)
      (f : EventRow → EventRow) (row : EventRow)
      → own_event dates id user_id role "You can only update your own events" w ≡ (ok d, w)
      → changes dates input ≡ ok f
      → row_at id w ≡ some row
      → Service.update dates id user_id role input w ≡ (ok (f row), written id f w)
  unfolding Service.update Repository.update Repository.update_row Cache.del Cache.redis_del
  update_valid id user_id role input w d f row own good there =
      ground (arith, L.find_first-rows (λ (e : EventRow). e.id == id) w.events)

  update_failed :
      (id user_id : String) (role : Role) (input : UpdateEventInput) (w : World) (e : Failure)
      → own_event dates id user_id role "You can only update your own events" w ≡ (err e, w)
      → Service.update dates id user_id role input w ≡ (err e, w)
  unfolding Service.update
  update_failed id user_id role input w e own = ground arith

  -- `update` changes nothing and throws, or the event was there and its organizer or an
  -- administrator asked: then each field that was given takes its value in that row alone, the dates
  -- as they are read, every other field stays, and the cached detail is gone.
  pub update-Outcome :
      (id user_id : String) (role : Role) (input : UpdateEventInput) (w : World)
      → UpdateOutcome id user_id role input w (Service.update dates id user_id role input w)
  unfolding OwnCases
  update-Outcome id user_id role input w =
      elim (own_cases id user_id role "You can only update your own events" w) [
        | inl (e, failed) ↦ rw (update_failed id user_id role input w e failed) refl
        | inr (row, found, may, own) ↦ elim (Result-cases (changes dates input)) [
          | inl (e, bad) ↦ rw (update_invalid id user_id role input w (detail w row) e own bad) refl
          | inr (f, good) ↦
              let (r, there) = row_exists id w row found in
              rw (update_valid id user_id role input w (detail w row) f r own good there) (
                f,
                written-IsChange id user_id role f w w row found may refl refl refl,
                good,
                changes-IsPatch dates input f good,
                (r, there, refl),
              )
        ]
      ]

  remove_failed :
      (id user_id : String) (role : Role) (w : World) (e : Failure)
      → own_event dates id user_id role "You can only delete your own events" w ≡ (err e, w)
      → remove dates id user_id role w ≡ (err e, w)
  unfolding remove
  remove_failed id user_id role w e own = ground arith

  remove_done :
      (id user_id : String) (role : Role) (w : World) (d : EventDetail) (row : EventRow)
      → own_event dates id user_id role "You can only delete your own events" w ≡ (ok d, w)
      → row_at id w ≡ some row
      → remove dates id user_id role w ≡ (
        ok tt,
        written id (deleted (p.clock w.readings)) (record w { readings = suc w.readings }),
      )
  unfolding remove Repository.soft_delete Repository.update_row Cache.del Cache.redis_del
  remove_done id user_id role w d row own there =
      ground (arith, L.find_first-rows (λ (e : EventRow). e.id == id) w.events)

  abbrev pub RemoveOutcome :
      (id user_id : String) → Role → (w : World) → Result (Unit {0}) × World → Type 0
  RemoveOutcome id user_id role w (err e, w') = w' ≡ w
  RemoveOutcome id user_id role w (ok _, w') =
      IsChange id user_id role (deleted (p.clock w.readings)) w w'

  pub remove-Outcome :
      (id user_id : String) (role : Role) (w : World)
      → RemoveOutcome id user_id role w (remove dates id user_id role w)
  unfolding OwnCases
  remove-Outcome id user_id role w =
      elim (own_cases id user_id role "You can only delete your own events" w) [
        | inl (e, failed) ↦ rw (remove_failed id user_id role w e failed) refl
        | inr (row, found, may, own) ↦
            let (r, there) = row_exists id w row found in
            rw (remove_done id user_id role w (detail w row) r own there) (
              written-IsChange id user_id role (deleted (p.clock w.readings)) w
                (record w { readings = suc w.readings }) row found may refl refl refl)
      ]

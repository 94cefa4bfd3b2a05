-- ===== src/Tickets/Service/Issue.antt =====
-- Issuing tickets for a confirmed reservation, and what a repeated job does.
use tickethub_backend.Common.{
  ◌≡◌, ◌≢◌, refl, sym, ◌∙◌, ap, ◌⊎◌, inl, inr, String, true, none, some, ◌==◌, string_eq, arith,
}
use tickethub_backend.Common.{List, [], ◌∷◌, ◌++◌, filter, any, count, Bool, Bool-cases}
use mathlib.Core.List.{append_assoc, append-nil}
use tickethub_backend.Platform.{Platform, IsLawful}
use tickethub_backend.Errors.{Failure, unique_violation, Result, ok, err, Result-cases}
use tickethub_backend.World.{World}
use tickethub_backend.World.Rows.{ReservationRow, SeatHoldRow, TicketRow, ticket_clash, valid}
use tickethub_backend.Booking.Repository.Stored.{row_at, belongs_to}
use tickethub_backend.Tickets.Qr.{QrCodec, generate_payload}
use tickethub_backend.Tickets.Service.{ticket_row, payload_data, issue, issue_all, generate_tickets}

module _ ⦃p : Platform⦄ (L : IsLawful p) (codec : QrCodec) where
  -- A row that was issued for a seat: a VALID ticket of the reservation's user, for the seat alone and
  -- never used, with a signed payload that names the event and the seat.
  pub record IsIssued (r : ReservationRow) (sh : SeatHoldRow) (t : TicketRow) : Type 0 where
    pub payload : String
    pub is_signed :
        generate_payload codec (record {
          ticket_id = sh.id;
          event_id = r.event_id;
          section_name = sh.section_name;
          row = sh.row;
          seat = sh.seat;
        })
        ≡ ok payload
    pub has_payload : t.qr_payload ≡ payload
    pub of_user : t.user_id ≡ r.user_id
    pub of_reservation : t.reservation_id ≡ r.id
    pub of_seat : t.seat_hold_id ≡ sh.id
    pub is_valid : t.status ≡ valid
    pub is_unused : t.used_at ≡ none

  -- Tickets for the seats of a list, in its order.
  abbrev pub AllIssued : ReservationRow → List SeatHoldRow → List TicketRow → Type 0
  AllIssued r [] [] = Unit
  AllIssued r [] (t ∷ ts) = ⊥
  AllIssued r (sh ∷ shs) [] = ⊥
  AllIssued r (sh ∷ shs) (t ∷ ts) = IsIssued r sh t × AllIssued r shs ts

  -- One round: the row is added, or the call throws and adds nothing.
  issue_cases :
      (r : ReservationRow) (sh : SeatHoldRow) (w : World)
      → ((e : Failure) × ((issue codec r sh w).0 ≡ err e)
          × (p.rows (issue codec r sh w).1.tickets ≡ p.rows w.tickets))
        ⊎ ((t : TicketRow) × ((issue codec r sh w).0 ≡ ok tt)
            × IsIssued r sh t
            × (p.rows (issue codec r sh w).1.tickets ≡ p.rows w.tickets ++ t ∷ []))
  unfolding issue
  issue_cases r sh w = elim (Result-cases (generate_payload codec (payload_data r sh))) [
    | inl (e, threw) ↦ inl (e, ground arith, ground arith)
    | inr (payload, made) ↦
        let t = ticket_row r sh (p.uuid w.drawn) payload (p.clock w.readings) in
        elim (Bool-cases (any (ticket_clash t) (p.rows w.tickets))) [
          | inl clash ↦
              let refused = L.create_clash ticket_clash t w.tickets clash in
              inl (unique_violation "tickets", ground arith, ground arith)
          | inr fresh ↦
              let (table, added, rows) = L.create_fresh ticket_clash t w.tickets fresh in
              inr (
                t,
                ground arith,
                record {
                  payload = payload;
                  is_signed = made;
                  has_payload = refl;
                  of_user = refl;
                  of_reservation = refl;
                  of_seat = refl;
                  is_valid = refl;
                  is_unused = refl;
                },
                ground arith,
              )
        ]
  ]

  -- What the loop has left: tickets for the first seats, all of them if it returned, and not all if
  -- it threw.
  pub record IsIssuing (r : ReservationRow) (shs : List SeatHoldRow) (w : World)
      (o : Result (Unit {0}) × World) : Type 0 where
    pub done : List SeatHoldRow
    pub rest : List SeatHoldRow
    pub tickets : List TicketRow
    pub split : shs ≡ done ++ rest
    pub issued : AllIssued r done tickets
    pub tickets_after : p.rows (o.1).tickets ≡ p.rows w.tickets ++ tickets
    pub ends : ((o.0 ≡ ok tt) × (rest ≡ [])) ⊎ (((e : Failure) × (o.0 ≡ err e)) × (rest ≢ []))

  issue_all_stop :
      (r : ReservationRow) (sh : SeatHoldRow) (shs : List SeatHoldRow) (w : World) (e : Failure)
      → (issue codec r sh w).0 ≡ err e
      → issue_all codec r (sh ∷ shs) w ≡ (err e, (issue codec r sh w).1)
  unfolding issue_all
  issue_all_stop r sh shs w e h = ground arith

  issue_all_step :
      (r : ReservationRow) (sh : SeatHoldRow) (shs : List SeatHoldRow) (w : World)
      → (issue codec r sh w).0 ≡ ok tt
      → issue_all codec r (sh ∷ shs) w ≡ issue_all codec r shs (issue codec r sh w).1
  unfolding issue_all
  issue_all_step r sh shs w h = ground arith

  pub issue_all-IsIssuing :
      (r : ReservationRow) (shs : List SeatHoldRow) (w : World)
      → IsIssuing r shs w (issue_all codec r shs w)
  unfolding issue_all
  issue_all-IsIssuing r [] w = record {
    done = [];
    rest = [];
    tickets = [];
    split = refl;
    issued = tt;
    tickets_after = sym (append-nil (p.rows w.tickets));
    ends = inl (refl, refl);
  }
  issue_all-IsIssuing r (sh ∷ shs) w = elim (issue_cases r sh w) [
    | inl (e, threw, same) ↦ rw (issue_all_stop r sh shs w e threw) (record {
      done = [];
      rest = sh ∷ shs;
      tickets = [];
      split = refl;
      issued = tt;
      tickets_after = same ∙ sym (append-nil (p.rows w.tickets));
      ends = inr ((e, refl), λ h. cc);
    })
    | inr (t, done, is, added) ↦
        let v = (issue codec r sh w).1 in
        let more = issue_all-IsIssuing r shs v in
        rw (issue_all_step r sh shs w done) (record {
          done = sh ∷ more.done;
          rest = more.rest;
          tickets = t ∷ more.tickets;
          split = ap (λ (l : List SeatHoldRow). sh ∷ l) more.split;
          issued = (is, more.issued);
          tickets_after =
              more.tickets_after
              ∙ ap (λ (l : List TicketRow). l ++ more.tickets) added
              ∙ append_assoc (p.rows w.tickets) (t ∷ []) more.tickets;
          ends = more.ends;
        })
  ]

  -- The seats of a reservation as the table lists them, in an order of its own.
  abbrev pub holds_of : String → World → List SeatHoldRow
  holds_of id w = p.find_many (belongs_to id) w.seat_holds

  generate_found :
      (id : String) (r : ReservationRow) (w : World)
      → row_at id w ≡ some r
      → generate_tickets codec id w ≡ issue_all codec r (holds_of r.id w) w
  unfolding generate_tickets
  generate_found id r w found = rw (L.find_first-rows, found) refl

  -- `generateTickets` of a stored reservation lists its seats, each as often as the table has it and
  -- in whatever order, and issues for each of them, in the order of that listing, one VALID and unused ticket of the reservation's user, whose payload is signed over the
  -- event, the section, the row and the seat; when it throws, the tickets of the seats before stay.
  pub generate_tickets-IsIssuing :
      (id : String) (r : ReservationRow) (w : World)
      → row_at id w ≡ some r
      → IsIssuing r (holds_of r.id w) w (generate_tickets codec id w)
        × ((g : SeatHoldRow → Bool)
            → count g (holds_of r.id w) ≡ count g (filter (belongs_to r.id) (p.rows w.seat_holds)))
  generate_tickets-IsIssuing id r w found = (
    rw (generate_found id r w found) (issue_all-IsIssuing r (holds_of r.id w) w),
    λ g. L.find_many-count g (belongs_to r.id) w.seat_holds,
  )

  any-taken :
      (t : TicketRow) (rows : List TicketRow)
      → any (λ (u : TicketRow). t.seat_hold_id == u.seat_hold_id) rows ≡ true
      → any (ticket_clash t) rows ≡ true
  any-taken t [] h = cc
  any-taken t (u ∷ us) h = ground (arith, any-taken t us)

  issue_taken :
      (r : ReservationRow) (sh : SeatHoldRow) (w : World)
      → any (λ (t : TicketRow). sh.id == t.seat_hold_id) (p.rows w.tickets) ≡ true
      → ((e : Failure) × ((issue codec r sh w).0 ≡ err e))
        × (p.rows (issue codec r sh w).1.tickets ≡ p.rows w.tickets)
  unfolding issue
  issue_taken r sh w there = elim (Result-cases (generate_payload codec (payload_data r sh))) [
    | inl (e, threw) ↦ ((e, ground arith), ground arith)
    | inr (payload, made) ↦
        let t = ticket_row r sh (p.uuid w.drawn) payload (p.clock w.readings) in
        let refused =
          L.create_clash ticket_clash t w.tickets (any-taken t (p.rows w.tickets) there) in
        ((unique_violation "tickets", ground arith), ground arith)
  ]

  -- A seat that has its ticket stops the job at once: a job that is run again, after it has issued
  -- the ticket of the first seat that it lists, throws and issues nothing, whatever seats are still without one.
  pub generate_tickets_again :
      (id : String) (r : ReservationRow) (sh : SeatHoldRow) (shs : List SeatHoldRow) (w : World)
      → row_at id w ≡ some r
      → holds_of r.id w ≡ sh ∷ shs
      → any (λ (t : TicketRow). sh.id == t.seat_hold_id) (p.rows w.tickets) ≡ true
      → let (res, w') = generate_tickets codec id w in
        ((e : Failure) × (res ≡ err e)) × (p.rows w'.tickets ≡ p.rows w.tickets)
  generate_tickets_again id r sh shs w found holds there =
      let ((e, threw), same) = issue_taken r sh w there in
      rw (generate_found id r w found, holds, issue_all_stop r sh shs w e threw) ((e, refl), same)

-- ===== src/Tickets/Service/Scans.antt =====
-- A ticket at the gates: what a scan does, and that one ticket lets in once.
use tickethub_backend.Common.{
  ℕ, zero, suc, ◌+◌, ◌≤◌, ◌≡◌, ◌≢◌, refl, ◌⊎◌, inl, inr, String, Bool, true, false, Option, none,
  some, ◌==◌, string_eq, ==_refl, arith,
}
use tickethub_backend.Common.{find, update, if◌then◌else◌, find-update_at}
use tickethub_backend.Platform.{Platform, IsLawful}
use tickethub_backend.Errors.{Result, ok, err, Result-cases}
use tickethub_backend.World.{World}
use tickethub_backend.World.Rows.{TicketRow, TicketStatus, SeatHoldRow, valid, used, revoked}
use tickethub_backend.Tickets.Qr.{QrPayloadData, QrCodec, verify_payload}
use tickethub_backend.Tickets.Service.{
  Validation, admitted, admit_ticket, validate_ticket, with_ticket, with_hold, by_status, verified,
}

module _ ⦃p : Platform⦄ (L : IsLawful p) (iso : ℕ → String) where
  -- The ticket that a payload stands on, and the seat hold behind it.
  abbrev pub ticket_of : String → World → Option TicketRow
  ticket_of payload w = find (λ (t : TicketRow). t.qr_payload == payload) (p.rows w.tickets)

  abbrev pub hold_of : TicketRow → World → Option SeatHoldRow
  hold_of t w = find (λ (sh : SeatHoldRow). sh.id == t.seat_hold_id) (p.rows w.seat_holds)

  abbrev pub mark : ℕ → TicketRow → TicketRow
  mark now r = record r { status = used; used_at = some now }

  -- A scan lets in, refuses with an answer, or throws.
  pub record LetsIn (payload : String) (r : Validation) (w w' : World) : Type 0 where
    pub ticket : TicketRow
    pub found : ticket_of payload w ≡ some ticket
    pub was_valid : ticket.status ≡ valid
    pub names_it : r.ticket_id ≡ some ticket.id
    -- Its row is marked as used at the reading of the clock, and no other row changes.
    pub tickets_after :
        p.rows w'.tickets
        ≡ update
            (λ (t : TicketRow). t.id == ticket.id)
            (mark (p.clock w.readings))
            (p.rows w.tickets)
    pub same_holds : w'.seat_holds ≡ w.seat_holds

  abbrev pub ScanOutcome : QrCodec → String → (w : World) → Result Validation × World → Type 0
  ScanOutcome codec payload w (err e, w') = w' ≡ w
  ScanOutcome codec payload w (ok r, w') =
      ((r.is_valid ≡ false) × (w' ≡ w))
      ⊎ ((r.is_valid ≡ true)
          × ((d : QrPayloadData) × (verify_payload codec payload ≡ ok (some d)))
          × LetsIn payload r w w')

  admit-Outcome :
      (codec : QrCodec) (payload : String) (t : TicketRow) (sh : SeatHoldRow) (s : TicketStatus)
      (w : World) (d : QrPayloadData)
      → verify_payload codec payload ≡ ok (some d)
      → ticket_of payload w ≡ some t
      → t.status ≡ s
      → ScanOutcome codec payload w (by_status iso s t sh w)
  unfolding by_status
  admit-Outcome codec payload t sh revoked w d genuine found is = inl (refl, refl)
  admit-Outcome codec payload t sh used w d genuine found is = inl (refl, refl)
  admit-Outcome codec payload t sh valid w d genuine found is = inr (
    refl,
    (d, genuine),
    record {
      ticket = t;
      found = found;
      was_valid = is;
      names_it = refl;
      tickets_after = L.rows-update_many _ _ w.tickets;
      same_holds = refl;
    },
  )

  hold-Outcome :
      (codec : QrCodec) (payload : String) (t : TicketRow) (o : Option SeatHoldRow) (w : World)
      (d : QrPayloadData)
      → verify_payload codec payload ≡ ok (some d)
      → ticket_of payload w ≡ some t
      → ScanOutcome codec payload w (with_hold iso t o w)
  unfolding with_hold admit_ticket
  hold-Outcome codec payload t none w d genuine found = refl
  hold-Outcome codec payload t (some sh) w d genuine found =
      admit-Outcome codec payload t sh t.status w d genuine found refl

  ticket-Outcome :
      (codec : QrCodec) (payload : String) (o : Option TicketRow) (w : World) (d : QrPayloadData)
      → verify_payload codec payload ≡ ok (some d)
      → ticket_of payload w ≡ o
      → ScanOutcome codec payload w (with_ticket iso o w)
  unfolding with_ticket
  ticket-Outcome codec payload none w d genuine found = inl (refl, refl)
  ticket-Outcome codec payload (some t) w d genuine found =
      hold-Outcome codec payload t (p.find_first (λ sh. sh.id == t.seat_hold_id) w.seat_holds) w d
        genuine found

  verified-Outcome :
      (codec : QrCodec) (payload : String) (o : Option QrPayloadData) (w : World)
      → verify_payload codec payload ≡ ok o
      → ScanOutcome codec payload w (verified iso payload o w)
  unfolding verified
  verified-Outcome codec payload none w genuine = inl (refl, refl)
  verified-Outcome codec payload (some d) w genuine =
      ticket-Outcome codec payload (p.find_first (λ t. t.qr_payload == payload) w.tickets) w d
        genuine (rw L.find_first-rows refl)

  -- `validateTicket` throws or refuses and changes nothing, or it lets in: then the payload carries
  -- its signature, its ticket was VALID, that ticket's row becomes USED at the reading of the clock
  -- and no other row changes.
  pub validate_ticket-Outcome :
      (codec : QrCodec) (payload : String) (w : World)
      → ScanOutcome codec payload w (validate_ticket iso codec payload w)
  unfolding validate_ticket
  validate_ticket-Outcome codec payload w = elim (Result-cases (verify_payload codec payload)) [
    | inl (e, threw) ↦ rw threw refl
    | inr (o, read) ↦ rw read (verified-Outcome codec payload o w read)
  ]

  -- A payload whose ticket is not VALID.
  abbrev pub IsSpent : String → World → Type 0
  IsSpent payload w = (t : TicketRow) × (ticket_of payload w ≡ some t) × (t.status ≢ valid)

  LetsIn-IsSpent :
      (payload : String) (r : Validation) (w w' : World)
      → LetsIn payload r w w'
      → IsSpent payload w'
  LetsIn-IsSpent payload r w w' h =
      let t = h.ticket in
      let q : TicketRow → Bool = λ u. u.qr_payload == payload in
      let s : TicketRow → Bool = λ u. u.id == t.id in
      let after =
        find-update_at q s (mark (p.clock w.readings)) (p.rows w.tickets) {x = t} (λ a. refl)
          h.found in
      (mark (p.clock w.readings) t, ground (arith, h.tickets_after, after, ==_refl t.id), λ e. cc)

  abbrev entry : Result Validation → ℕ
  entry (ok r) = if r.is_valid then 1 else 0
  entry (err e) = 0

  step-IsSpent :
      (codec : QrCodec) (payload : String) (w : World) (o : Result Validation × World)
      → ScanOutcome codec payload w o
      → IsSpent payload w
      → (entry o.0 ≡ 0) × IsSpent payload o.1
  step-IsSpent codec payload w (err e, w') same h = (refl, rw same h)
  step-IsSpent codec payload w (ok r, w') (inl (no_, same)) h = (ground arith, rw same h)
  step-IsSpent codec payload w (ok r, w') (inr (yes_, genuine, lets)) (t, found, spent) =
      let there = lets.found in let was = lets.was_valid in ground arith

  open_step :
      (codec : QrCodec) (payload : String) (w : World) (o : Result Validation × World)
      → ScanOutcome codec payload w o
      → (entry o.0 ≡ 0) ⊎ ((entry o.0 ≡ 1) × IsSpent payload o.1)
  open_step codec payload w (err e, w') same = inl refl
  open_step codec payload w (ok r, w') (inl (no_, same)) = inl (ground arith)
  open_step codec payload w (ok r, w') (inr (yes_, genuine, lets)) =
      inr (ground arith, LetsIn-IsSpent payload r w w' lets)

  -- How many of a number of scans of one payload, one after another, let in.
  pub entries : QrCodec → String → ℕ → World → ℕ
  entries codec payload zero w = 0
  entries codec payload (suc n) w =
      entry (validate_ticket iso codec payload w).0
      + entries codec payload n (validate_ticket iso codec payload w).1

  spent_entries :
      (codec : QrCodec) (payload : String) (n : ℕ) (w : World)
      → IsSpent payload w
      → entries codec payload n w ≡ 0
  unfolding entries
  spent_entries codec payload zero w h = refl
  spent_entries codec payload (suc n) w h =
      let o = validate_ticket iso codec payload w in
      let (shut, still) =
        step-IsSpent codec payload w o (validate_ticket-Outcome codec payload w) h in
      omega (arith, shut, spent_entries codec payload n o.1 still)

  -- However often a payload is scanned, one scan after another, at most one lets in.
  pub entries_once :
      (codec : QrCodec) (payload : String) (n : ℕ) (w : World) → entries codec payload n w ≤ 1
  unfolding entries
  entries_once codec payload zero w = omega arith
  entries_once codec payload (suc n) w =
      let o = validate_ticket iso codec payload w in
      elim (open_step codec payload w o (validate_ticket-Outcome codec payload w)) [
        | inl shut ↦ omega (arith, shut, entries_once codec payload n o.1)
        | inr (let_in, spent) ↦ omega (arith, let_in, spent_entries codec payload n o.1 spent)
      ]

  -- Two gates that have both read a ticket while it was VALID, before either has written, both let
  -- in: the write does not look at the status again.
  pub admit_ticket_twice :
      (t : TicketRow) (sh : SeatHoldRow) (w : World)
      → t.status ≡ valid
      → let (first, w') = admit_ticket iso t sh w in
        let (second, w'') = admit_ticket iso t sh w' in
        (first ≡ ok (admitted t sh))
        × (second ≡ ok (admitted t sh))
        × ((admitted t sh).is_valid ≡ true)
  unfolding admit_ticket
  admit_ticket_twice t sh w h = ground arith

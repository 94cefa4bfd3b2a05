-- ===== src/World.antt =====
-- What the requests of the backend share: the tables of prisma/schema.prisma, Redis, the seat
-- locks and the jobs handed to the queues; and the actions on it, which end with a value or throw.
-- What an action wrote before it threw stays written.
pub mod Rows
pub mod People
use tickethub_backend.Common.{
  ◌≡◌, arith, ℕ, suc, String, Bool, true, false, Option, none, some, List, [], ◌∷◌, ◌++◌,
}
use tickethub_backend.Platform.{Platform}
use tickethub_backend.Errors.{Failure, unique_violation, Result, ok, err}
use tickethub_backend.Payments.CircuitBreaker.{CircuitBreaker}
use tickethub_backend.World.Rows.{
  ReservationRow, SeatHoldRow, EventRow, PricingEventRow, CurrentPriceRow, Job, PaymentRow,
  TicketRow, GatewayCall,
}
use tickethub_backend.World.People.{UserRow, RefreshTokenRow, VenueRow, NotificationRow}

pub record World ⦃p : Platform⦄ : Type 0 where
  pub reservations : p.Table ReservationRow
  pub seat_holds : p.Table SeatHoldRow
  pub events : p.Table EventRow
  pub pricing_events : p.Table PricingEventRow
  pub current_prices : p.Table CurrentPriceRow
  pub payments : p.Table PaymentRow
  pub tickets : p.Table TicketRow
  pub users : p.Table UserRow
  pub refresh_tokens : p.Table RefreshTokenRow
  pub venues : p.Table VenueRow
  pub notifications : p.Table NotificationRow
  -- The breaker of the payments service, and the calls that reached the gateway.
  pub breaker : CircuitBreaker
  pub gateway_calls : List GatewayCall
  pub redis : p.Redis
  pub locks : p.Locks
  -- The jobs added to the queues, in their order.
  pub jobs : List Job
  -- How many readings of the clock were made, and how many identifiers drawn.
  pub readings : ℕ
  pub drawn : ℕ

module _ ⦃p : Platform⦄ where
  abbrev pub Action : Type 0 → Type 0
  Action A = World → Result A × World

  infixl 5 ◌>>=◌ ◌>>◌
  abbrev pub ◌>>=◌ : {A B : Type 0} → Action A → (A → Action B) → Action B
  ◌>>=◌ m f w = let (r, w') = m w in elim r [ ok a ↦ f a w' | err e ↦ (err e, w') ]

  abbrev pub ◌>>◌ : {B : Type 0} → Action (Unit {0}) → Action B → Action B
  m >> k = m >>= λ _. k

  pub bind_ok :
      {A B : Type 0} (m : Action A) (f : A → Action B) {a : A} {w w' : World}
      → m w ≡ (ok a, w')
      → (m >>= f) w ≡ f a w'
  bind_ok m f h = ground (arith)

  pub bind_err :
      {A B : Type 0} (m : Action A) (f : A → Action B) {e : Failure} {w w' : World}
      → m w ≡ (err e, w')
      → (m >>= f) w ≡ (err e, w')
  bind_err m f h = ground (arith)

  abbrev pub pure : {A : Type 0} → A → Action A
  pure a w = (ok a, w)

  abbrev pub throw : {A : Type 0} → Failure → Action A
  throw e w = (err e, w)

  abbrev pub lift : {A : Type 0} → Result A → Action A
  lift r w = (r, w)

  abbrev pub gets : {A : Type 0} → (World → A) → Action A
  gets f w = (ok (f w), w)

  abbrev pub modify : (World → World) → Action (Unit {0})
  modify f w = (ok tt, f w)

  -- `if (test) throw e;`
  abbrev pub throw_if : Bool → Failure → Action (Unit {0})
  throw_if true e w = (err e, w)
  throw_if false e w = (ok tt, w)

  -- `if (!x) throw e;`
  abbrev pub or_throw : {A : Type 0} → Option A → Failure → Action A
  or_throw none e w = (err e, w)
  or_throw (some a) e w = (ok a, w)

  -- `try { m } catch { handler }`
  abbrev pub catch : {A : Type 0} → Action A → Action A → Action A
  catch m handler w = let (r, w') = m w in elim r [ ok a ↦ (ok a, w') | err e ↦ handler w' ]

  -- `new Date()` and `Date.now()`, in milliseconds.
  unfoldable pub new_date : Action ℕ
  new_date w = (ok (p.clock w.readings), record w { readings = suc w.readings })

  -- `uuidv4()`, and the identifier that the database gives to a new row.
  unfoldable pub uuid : Action String
  uuid w = (ok (p.uuid w.drawn), record w { drawn = suc w.drawn })

  -- `queue.add`
  unfoldable pub enqueue : Job → Action (Unit {0})
  enqueue job w = (ok tt, record w { jobs = w.jobs ++ job ∷ [] })

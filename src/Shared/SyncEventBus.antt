-- ===== src/Shared/SyncEventBus.antt =====
-- src/shared/events/sync-event-bus.ts: handlers by the name of their event, run one after the other.
use tickethub_backend.Common.{
  String, List, [], ◌∷◌, ◌++◌, ◌==◌, string_eq, ◌≡◌, refl, ap, ◌∙◌, ==_refl, arith, if◌then◌else◌,
  inl, inr,
}
use tickethub_backend.Platform.{Platform}
use tickethub_backend.Errors.{Result, ok, err, Result-cases}
use tickethub_backend.World.{World, Action, ◌>>◌, pure}

module _ ⦃p : Platform⦄ (Payload : Type 0) where
  abbrev Handler : Type 0
  Handler = Payload → Action (Unit {0})

  abbrev Handlers : Type 0
  Handlers = List (String × List Handler)

  -- `this.handlers[event]`, empty if there is none.
  abbrev handlers_of : String → Handlers → List Handler
  handlers_of event [] = []
  handlers_of event ((name, hs) ∷ rest) = if name == event then hs else handlers_of event rest

  -- `on`: the handler is added behind those of its event.
  unfoldable pub on : String → Handler → Handlers → Handlers
  on event h [] = (event, h ∷ []) ∷ []
  on event h ((name, hs) ∷ rest) =
      let more = on event h rest in
      if name == event then (name, hs ++ h ∷ []) ∷ rest else (name, hs) ∷ more

  -- The loop of `emit`: the first handler that throws ends it.
  unfoldable pub run_all : List Handler → Payload → Action (Unit {0})
  run_all [] payload = pure tt
  run_all (h ∷ hs) payload = h payload >> run_all hs payload

  unfoldable pub emit : Handlers → String → Payload → Action (Unit {0})
  unfolding run_all
  emit bus event payload = run_all (handlers_of event bus) payload

  abbrev pub clear : Handlers → Handlers
  clear bus = []

  handlers-on :
      (event : String) (h : Handler) (bus : Handlers)
      → handlers_of event (on event h bus) ≡ handlers_of event bus ++ h ∷ []
  unfolding on
  handlers-on event h [] = ground (arith, ==_refl event)
  handlers-on event h ((name, hs) ∷ rest) = ground (arith, handlers-on event h rest)

  -- One handler more at the end of a run.
  then_one :
      (h : Handler) (payload : Payload) (w : World) (o : Result (Unit {0}) × World)
      → h payload w ≡ o
      → run_all (h ∷ []) payload w ≡ o
  unfolding run_all
  then_one h payload w (ok tt, w') run = ground arith
  then_one h payload w (err e, w') run = ground arith

  run_snoc :
      (hs : List Handler) (h : Handler) (payload : Payload) (w : World)
      → run_all (hs ++ h ∷ []) payload w ≡ (run_all hs payload >> h payload) w
  unfolding run_all
  run_snoc [] h payload w = then_one h payload w (h payload w) refl
  run_snoc (g ∷ hs) h payload w = elim (Result-cases (g payload w).0) [
    | inl (e, failed) ↦ ground arith
    | inr (u, done) ↦ ground (arith, run_snoc hs h payload (g payload w).1)
  ]

  -- After `on`, an event runs the handlers that it had, in their order, and then the new one, which
  -- does not run if one of them throws.
  pub emit-on :
      (bus : Handlers) (event : String) (h : Handler) (payload : Payload) (w : World)
      → emit (on event h bus) event payload w ≡ (emit bus event payload >> h payload) w
  unfolding emit
  emit-on bus event h payload w =
      ap (λ hs. run_all hs payload w) (handlers-on event h bus)
      ∙ run_snoc (handlers_of event bus) h payload w

-- ===== src/Events/Service/Patch.antt =====
-- What `update` writes of an input: each field that is given, and no other.
use tickethub_backend.Common.{
  ◌≡◌, sym, ap, ℕ, inl, inr, String, Option, none, some, string_eq, arith,
}
use tickethub_backend.Errors.{ok, Result-cases}
use tickethub_backend.World.Rows.{EventRow}
use tickethub_backend.Shared.Pagination.Keyset.{Dates, date_of}
use tickethub_backend.Venues.Repository.{or_else}
use tickethub_backend.Events.Service.{UpdateEventInput, changes, changed, given_date}

module _ (dates : Dates) where
  -- A date as an input gives it: missing, or a text that is a date.
  abbrev pub IsDate : Option String → Option ℕ → Type 0
  IsDate none at = at ≡ none
  IsDate (some text) at = (t : ℕ) × (at ≡ some t) × (date_of (dates.of_iso text) ≡ ok t)

  -- What is written: each field that the input gives takes its value, and no other field changes.
  pub record IsPatch (input : UpdateEventInput) (f : EventRow → EventRow) : Type 0 where
    pub from : Option ℕ
    pub to : Option ℕ
    pub sales_from : Option ℕ
    pub sales_to : Option ℕ
    pub is_from : IsDate input.starts_at from
    pub is_to : IsDate input.ends_at to
    pub is_sales_from : IsDate input.sales_start_at sales_from
    pub is_sales_to : IsDate input.sales_end_at sales_to
    pub fields :
        (e : EventRow)
        → f e ≡ record e {
          name = or_else input.name e.name;
          description = or_else input.description e.description;
          category = or_else input.category e.category;
          status = or_else input.status e.status;
          starts_at = or_else from e.starts_at;
          ends_at = or_else to e.ends_at;
          sales_start_at = or_else sales_from e.sales_start_at;
          sales_end_at = or_else sales_to e.sales_end_at;
          poster_url = or_else input.poster_url e.poster_url;
        }

  ok_injective : {A : Type 0} {a b : A} → ok a ≡ ok b → a ≡ b
  ok_injective h = cc

  given-IsDate : (o : Option String) (t : Option ℕ) → given_date dates o ≡ ok t → IsDate o t
  unfolding given_date
  given-IsDate none t h = ok_injective (sym h)
  given-IsDate (some text) t h = elim (Result-cases (date_of (dates.of_iso text))) [
    | inl (e, bad) ↦ absurd cc
    | inr (s, good) ↦ (s, ground arith, good)
  ]

  pub changes-IsPatch :
      (input : UpdateEventInput) (f : EventRow → EventRow)
      → changes dates input ≡ ok f
      → IsPatch input f
  unfolding changes
  changes-IsPatch input f run = elim (Result-cases (given_date dates input.starts_at)) [
    | inl (e, bad) ↦ absurd (ground arith)
    | inr (from, a) ↦ elim (Result-cases (given_date dates input.ends_at)) [
      | inl (e, bad) ↦ absurd (ground arith)
      | inr (to, b) ↦ elim (Result-cases (given_date dates input.sales_start_at)) [
        | inl (e, bad) ↦ absurd (ground arith)
        | inr (sales_from, c) ↦ elim (Result-cases (given_date dates input.sales_end_at)) [
          | inl (e, bad) ↦ absurd (ground arith)
          | inr (sales_to, d) ↦
              let is : changed input from to sales_from sales_to ≡ f =
                ok_injective (ground arith) in
              record {
                from = from;
                to = to;
                sales_from = sales_from;
                sales_to = sales_to;
                is_from = given-IsDate input.starts_at from a;
                is_to = given-IsDate input.ends_at to b;
                is_sales_from = given-IsDate input.sales_start_at sales_from c;
                is_sales_to = given-IsDate input.sales_end_at sales_to d;
                fields = λ e. ap (λ (g : EventRow → EventRow). g e) (sym is);
              }
        ]
      ]
    ]
  ]

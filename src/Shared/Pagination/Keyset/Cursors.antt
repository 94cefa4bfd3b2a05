-- ===== src/Shared/Pagination/Keyset/Cursors.antt =====
-- A cursor that a page hands out is read back as the key of its item.
use tickethub_backend.Common.{ℕ, ◌≡◌, ◌≢◌, refl, ap, ◌∙◌, String, some, arith}
use tickethub_backend.Errors.{ok, ◌>>=◌}
use tickethub_backend.Shared.Pagination.{CursorData, CursorCodec, encode_cursor}
use tickethub_backend.Shared.Pagination.Pages.{decode-encode}
use tickethub_backend.Shared.Pagination.Keyset.{Dates, read_cursor, key_of, date_of}

-- What the listing relies on for an item with a time and an identifier: base64url and JSON give
-- back what they were given, a date survives `toISOString`, and neither field is empty.
pub record IsKeyed (codec : CursorCodec) (dates : Dates) (at : ℕ) (id : String) : Type 0 where
  pub from_base64-to_base64 : (s : String) → codec.from_base64 (codec.to_base64 s) ≡ s
  pub parse-stringify :
      codec.parse (codec.stringify (record { id = id; created_at = dates.to_iso at }))
      ≡ some (record { id = id; created_at = dates.to_iso at })
  pub of_iso-to_iso : dates.of_iso (dates.to_iso at) ≡ some at
  pub renew-to_iso : dates.renew (dates.to_iso at) ≡ dates.to_iso at
  pub is_text : encode_cursor codec (record { id = id; created_at = dates.to_iso at }) ≢ ""
  pub has_id : id ≢ ""
  pub has_time : dates.to_iso at ≢ ""

read_some :
    (codec : CursorCodec) (dates : Dates) (text : String)
    → text ≢ ""
    → read_cursor codec dates (some text) ≡ key_of codec dates text
unfolding read_cursor
read_some codec dates String.[] h = ground arith
read_some codec dates (String.◌∷◌ c s) h = refl

pub read-encode :
    (codec : CursorCodec) (dates : Dates) (at : ℕ) (id : String)
    → IsKeyed codec dates at id
    → read_cursor codec dates
        (some (encode_cursor codec (record { id = id; created_at = dates.to_iso at })))
      ≡ ok (some (at, id))
unfolding key_of
read-encode codec dates at id h =
    let d : CursorData = record { id = id; created_at = dates.to_iso at } in
    read_some codec dates (encode_cursor codec d) h.is_text
    ∙ ap (λ r. r >>= λ e. date_of (dates.of_iso e.created_at) >>= λ t. ok (some (t, e.id)))
        (decode-encode codec d h.from_base64-to_base64 h.parse-stringify h.has_id h.has_time)
    ∙ ap (λ o. date_of o >>= λ t. ok (some (t, id))) h.of_iso-to_iso

-- ===== src/Tickets/Qr.antt =====
-- src/modules/tickets/qr-generator.ts: QR payloads and their signatures. HMAC, base64url and JSON
-- are an argument. The constant-time comparison of the two signatures is the equality of texts: it
-- is made on their bytes when the lengths agree.
pub mod Signatures
use Prim.Native.Char.{Char, code}
use tickethub_backend.Common.{ℕ, String, ◌<>◌, Bool, true, false, Option, none, some, ◌||◌}
use tickethub_backend.Common.{List, [], ◌∷◌, ◌==◌, string_eq, nat_eq, if◌then◌else◌}
use tickethub_backend.Errors.{Failure, plain_error, Result, ok, err}

pub record QrPayloadData : Type 0 where
  pub ticket_id : String
  pub event_id : String
  pub section_name : String
  pub row : ℕ
  pub seat : ℕ

-- `secret` is TICKET_HMAC_SECRET, `hmac` takes the secret and a text and gives the digest in
-- base64url, and `parse` gives `none` where decoding or `JSON.parse` throws.
pub record QrCodec : Type 0 where
  pub secret : Option String
  pub hmac : String → String → String
  pub stringify : QrPayloadData → String
  pub to_base64 : String → String
  pub parse_base64 : String → Option QrPayloadData

-- `getSecret`, which refuses the empty text too.
unfoldable pub get_secret : QrCodec → Result String
get_secret codec = elim codec.secret [
  | none ↦ err (plain_error "TICKET_HMAC_SECRET is not configured")
  | some String.[] ↦ err (plain_error "TICKET_HMAC_SECRET is not configured")
  | some s ↦ ok s
]

signed : QrCodec → String → String → String
signed codec secret text = text <> "." <> codec.hmac secret text

unfoldable pub generate_payload : QrCodec → QrPayloadData → Result String
unfolding get_secret signed
generate_payload codec d = elim (get_secret codec) [
  | err e ↦ err e
  | ok secret ↦ ok (signed codec secret (codec.to_base64 (codec.stringify d)))
]

-- `split('.')`: the first part and the others.
unfoldable pub split_dot : String → String × List String
unfolding nat_eq
split_dot String.[] = ("", [])
split_dot (String.◌∷◌ c s) =
    let (head, rest) = split_dot s in
    if code c == b'.' then ("", head ∷ rest) else (String.◌∷◌ c head, rest)

-- `{ valid, data }`: `none` is `{ valid: false }`.
decoded : QrCodec → String → Option QrPayloadData
decoded codec text = codec.parse_base64 text

checked : QrCodec → (text signature secret : String) → Option QrPayloadData
unfolding decoded
checked codec text signature secret =
    if signature == codec.hmac secret text then decoded codec text else none

-- The two parts, of which neither may be empty.
verify_parts : QrCodec → (text signature : String) → Result (Option QrPayloadData)
unfolding get_secret checked
verify_parts codec String.[] signature = ok none
verify_parts codec (String.◌∷◌ c t) String.[] = ok none
verify_parts codec (String.◌∷◌ c t) (String.◌∷◌ d s) = elim (get_secret codec) [
  | err e ↦ err e
  | ok secret ↦ ok (checked codec (String.◌∷◌ c t) (String.◌∷◌ d s) secret)
]

verify_split : QrCodec → String × List String → Result (Option QrPayloadData)
unfolding verify_parts
verify_split codec (text, []) = ok none
verify_split codec (text, signature ∷ []) = verify_parts codec text signature
verify_split codec (text, signature ∷ (x ∷ xs)) = ok none

unfoldable pub verify_payload : QrCodec → String → Result (Option QrPayloadData)
unfolding verify_split split_dot
verify_payload codec payload = verify_split codec (split_dot payload)

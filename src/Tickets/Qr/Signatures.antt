-- ===== src/Tickets/Qr/Signatures.antt =====
-- What a QR payload proves: only what was signed with the secret verifies, and what was generated
-- verifies to the data that went in.
use Prim.Native.Char.{Char, char, code}
use text.Mathlib.TextEquality.{Char-path}
use text.Mathlib.TextLemmas.{nil-append, cons-append}
use tickethub_backend.Common.{
  String, ◌<>◌, ◌≡◌, ◌≢◌, refl, ◌∙◌, ap, inl, inr, some, ◌==◌, string_eq, nat_eq, ==_refl, arith,
  Bool-cases,
}
use tickethub_backend.Common.{List, [], ◌∷◌}
use tickethub_backend.Errors.{ok, Result-cases}
use tickethub_backend.Tickets.Qr.{
  QrPayloadData, QrCodec, get_secret, generate_payload, split_dot, verify_payload, verify_split,
  verify_parts,
}

abbrev pub NoDot : String → Type 0
NoDot String.[] = Unit
NoDot (String.◌∷◌ c s) = (code c ≢ b'.') × NoDot s

split-NoDot : (s : String) → NoDot s → split_dot s ≡ (s, [])
unfolding split_dot
split-NoDot String.[] h = refl
split-NoDot (String.◌∷◌ c s) (h, k) = ground (arith, split-NoDot s k)

dot_lem : (c : Char) (s : String) → code c ≡ b'.' → String.◌∷◌ c s ≡ "." <> s
dot_lem c s h = rw (Char-path c (char b'.' tt) h, cons-append, nil-append) refl

dot-append : (s : String) → "." <> s ≡ String.◌∷◌ (char b'.' tt) s
dot-append s = rw (cons-append, nil-append) refl

-- A text is cut at its first dot.
split-join :
    (a b : String) → NoDot a → split_dot (a <> "." <> b) ≡ (a, (split_dot b).0 ∷ (split_dot b).1)
unfolding split_dot
split-join String.[] b h = rw (nil-append, dot-append b) refl
split-join (String.◌∷◌ c a) b (h, k) = rw cons-append (ground (arith, split-join a b k))

join_whole : (s a : String) → split_dot s ≡ (a, []) → s ≡ a
unfolding split_dot
join_whole String.[] a h = cc
join_whole (String.◌∷◌ c s) a h = elim (Bool-cases (code c == b'.')) [
  | inl dot ↦ ground arith
  | inr other ↦ ground (arith, join_whole s (split_dot s).0)
]

-- What was cut at its only dot is joined again by it.
join-split : (s a b : String) → split_dot s ≡ (a, b ∷ []) → s ≡ a <> "." <> b
unfolding split_dot
join-split String.[] a b h = cc
join-split (String.◌∷◌ c s) a b h = elim (Bool-cases (code c == b'.')) [
  | inl dot ↦
      let whole : s ≡ b = join_whole s b (ground arith) in
      let none_before : a ≡ "" = ground arith in
      rw (none_before, nil-append, ← whole) (dot_lem c s (ground arith))
  | inr other ↦
      let tail = (split_dot s).0 in
      let step : s ≡ tail <> "." <> b = join-split s tail b (ground arith) in
      let head : a ≡ String.◌∷◌ c tail = ground arith in
      rw (head, cons-append) (ap (λ t. String.◌∷◌ c t) step)
]

-- What the parts of a payload that verifies say.
abbrev IsSigned : QrCodec → String → String → QrPayloadData → Type 0
IsSigned codec text signature d =
    (secret : String) × (get_secret codec ≡ ok secret)
    × (signature ≡ codec.hmac secret text)
    × (codec.parse_base64 text ≡ some d)

parts-IsSigned :
    (codec : QrCodec) (text signature : String) (d : QrPayloadData)
    → verify_parts codec text signature ≡ ok (some d)
    → IsSigned codec text signature d
unfolding verify_parts
parts-IsSigned codec String.[] signature d h = cc
parts-IsSigned codec (String.◌∷◌ c t) String.[] d h = cc
parts-IsSigned codec (String.◌∷◌ c t) (String.◌∷◌ e s) d h =
    elim (Result-cases (get_secret codec)) [
      | inl (f, missing) ↦ ground arith
      | inr (secret, there) ↦ (secret, there, ground arith, ground arith)
    ]

split-IsSigned :
    (codec : QrCodec) (parts : String × List String) (d : QrPayloadData)
    → verify_split codec parts ≡ ok (some d)
    → (signature : String) × (parts ≡ (parts.0, signature ∷ []))
      × IsSigned codec parts.0 signature d
unfolding verify_split
split-IsSigned codec (text, []) d h = cc
split-IsSigned codec (text, signature ∷ []) d h =
    (signature, refl, parts-IsSigned codec text signature d h)
split-IsSigned codec (text, signature ∷ (x ∷ xs)) d h = cc

-- A payload verifies only if it is a text, a dot and that text's signature under the configured
-- secret, and the data are those that the text decodes to.
pub verify_genuine :
    (codec : QrCodec) (payload : String) (d : QrPayloadData)
    → verify_payload codec payload ≡ ok (some d)
    → (secret : String) × (text : String) × (get_secret codec ≡ ok secret)
      × (payload ≡ text <> "." <> codec.hmac secret text)
      × (codec.parse_base64 text ≡ some d)
unfolding verify_payload
verify_genuine codec payload d h =
    let text = (split_dot payload).0 in
    let (signature, parts, (secret, there, genuine, means)) =
      split-IsSigned codec (split_dot payload) d h in
    (secret, text, there, rw (← genuine) (join-split payload text signature parts), means)

parts_ok :
    (codec : QrCodec) (text signature secret : String)
    → text ≢ ""
    → signature ≢ ""
    → get_secret codec ≡ ok secret
    → signature ≡ codec.hmac secret text
    → verify_parts codec text signature ≡ ok (codec.parse_base64 text)
unfolding verify_parts
parts_ok codec String.[] signature secret a b there genuine = ground arith
parts_ok codec (String.◌∷◌ c t) String.[] secret a b there genuine = ground arith
parts_ok codec (String.◌∷◌ c t) (String.◌∷◌ e s) secret a b there genuine =
    ground (arith, ==_refl (String.◌∷◌ e s))

-- What was generated verifies to the data that went in, if neither base64url nor the signature
-- has a dot or is empty, and decoding gives back what was encoded.
pub verify-generate :
    (codec : QrCodec) (d : QrPayloadData) (payload : String)
    → generate_payload codec d ≡ ok payload
    → NoDot (codec.to_base64 (codec.stringify d))
    → codec.to_base64 (codec.stringify d) ≢ ""
    → ((secret text : String) → NoDot (codec.hmac secret text) × (codec.hmac secret text ≢ ""))
    → codec.parse_base64 (codec.to_base64 (codec.stringify d)) ≡ some d
    → verify_payload codec payload ≡ ok (some d)
unfolding generate_payload verify_payload
verify-generate codec d payload made plain full digest reads =
    let text = codec.to_base64 (codec.stringify d) in
    elim (Result-cases (get_secret codec)) [
      | inl (f, missing) ↦ ground arith
      | inr (secret, there) ↦
          let signature = codec.hmac secret text in
          let is : text <> "." <> signature ≡ payload = ground arith in
          let (no_dot, not_empty) = digest secret text in
          let cut : split_dot (text <> "." <> signature) ≡ (text, signature ∷ []) =
            rw (split-join text signature plain, split-NoDot signature no_dot) refl in
          rw (← is, cut)
            (parts_ok codec text signature secret full not_empty there refl ∙ ap ok reads)
    ]

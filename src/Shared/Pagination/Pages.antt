-- ===== src/Shared/Pagination/Pages.antt =====
-- Page sizes, pages, and cursors that are sent back.
use tickethub_backend.Common.{
  ℕ, zero, suc, ◌≤◌, ◌<◌, ◌≡◌, ◌≢◌, refl, ap, ◌⊎◌, inl, inr, String, Bool, true, false, some, arith,
  Bool-cases,
}
use tickethub_backend.Common.{List, [], ◌∷◌, length, take, ltb, leb, ◌&&◌, ltb→lt}
use tickethub_backend.Common.Number.{
  Number, integer, fraction, nan, infinity, minus_infinity, pos, negsuc,
}
use tickethub_backend.Errors.{ok}
use tickethub_backend.Shared.Pagination.{
  CursorData, CursorCodec, max_page_size, default_page_size, encode_cursor, decode_cursor, checked,
  page_limit, build_page,
}

-- Numbers that lie within the bounds, whole ones and fractions.
abbrev is_within : Number → Bool
is_within (integer (pos n)) = leb 1 n && leb n max_page_size
is_within (fraction (pos n)) = leb 1 n && ltb n max_page_size
is_within _ = false

-- The limit that `parsePaginationParams` makes of a number: one within 1 and 100 stays as it is, so
-- that a fraction stays that fraction, and for every other number, and for none, it is 1, 20 or 100.
page_limit_cases :
    (x : Number)
    → ((is_within x ≡ true) × (page_limit x ≡ x))
      ⊎ ((is_within x ≡ false)
          × ((page_limit x ≡ integer (pos 1))
              ⊎ ((page_limit x ≡ integer (pos default_page_size))
                  ⊎ (page_limit x ≡ integer (pos max_page_size)))))
unfolding page_limit
page_limit_cases (integer (pos zero)) = inr (refl, inr (inl refl))
page_limit_cases (integer (pos (suc n))) = ground arith
page_limit_cases (integer (negsuc n)) = inr (refl, inl refl)
page_limit_cases (fraction (pos zero)) = inr (refl, inl refl)
page_limit_cases (fraction (pos (suc n))) = ground arith
page_limit_cases (fraction (negsuc n)) = inr (refl, inl refl)
page_limit_cases nan = inr (refl, inr (inl refl))
page_limit_cases infinity = inr (refl, inr (inr refl))
page_limit_cases minus_infinity = inr (refl, inl refl)

take_all : {A : Type 0} (n : ℕ) (xs : List A) → length xs ≤ n → take n xs ≡ xs
take_all zero [] h = refl
take_all zero (x ∷ xs) h = ground arith
take_all (suc n) [] h = refl
take_all (suc n) (x ∷ xs) h = ap (λ (l : List _). x ∷ l) (take_all n xs (omega arith))

length-take_le : {A : Type 0} (n : ℕ) (xs : List A) → length (take n xs) ≤ n
length-take_le zero xs = omega arith
length-take_le (suc n) [] = omega arith
length-take_le (suc n) (x ∷ xs) = omega (arith, length-take_le n xs)

-- A page holds the first items, no more than the limit, and says that there is more exactly when
-- items were left out.
pub build_page_lem :
    {A : Type 0} (codec : CursorCodec) (key : A → CursorData) (items : List A) (limit : ℕ)
    → let page = build_page codec key items limit in
      (page.items ≡ take limit items)
      × (page.count ≤ limit)
      × (((page.has_more ≡ true) × (limit < length items))
          ⊎ ((page.has_more ≡ false) × (page.items ≡ items)))
unfolding build_page
build_page_lem codec key items limit = elim (Bool-cases (ltb limit (length items))) [
  | inl more ↦ (
    ground arith,
    ground (arith, length-take_le limit items),
    inl (more, ltb→lt limit (length items) more),
  )
  | inr all_ ↦
      (ground (arith, take_all limit items (ground arith)), ground arith, inr (all_, ground arith))
]

checked_ok : (d : CursorData) (id at : String) → id ≢ "" → at ≢ "" → checked d id at ≡ ok d
unfolding checked
checked_ok d String.[] at h k = ground arith
checked_ok d (String.◌∷◌ c id) String.[] h k = ground arith
checked_ok d (String.◌∷◌ c id) (String.◌∷◌ e at) h k = refl

-- A cursor that was handed out is read back as it was, if base64 gives back what it was given, JSON
-- gives back this cursor, and neither field is empty.
pub decode-encode :
    (codec : CursorCodec) (d : CursorData)
    → ((s : String) → codec.from_base64 (codec.to_base64 s) ≡ s)
    → codec.parse (codec.stringify d) ≡ some d
    → d.id ≢ ""
    → d.created_at ≢ ""
    → decode_cursor codec (encode_cursor codec d) ≡ ok d
unfolding decode_cursor encode_cursor
decode-encode codec d h k named dated = rw (h, k) (checked_ok d d.id d.created_at named dated)

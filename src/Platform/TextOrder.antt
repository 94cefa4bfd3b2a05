-- ===== src/Platform/TextOrder.antt =====
-- Texts in the order of their characters' numbers.
use Prim.Native.Char.{Char, code}
use text.Mathlib.TextEquality.{codes_equal}
use tickethub_backend.Common.{
  ◌≡◌, ◌≢◌, refl, inl, inr, String, Bool, true, false, ◌||◌, ltb, if◌then◌else◌, Bool-cases, arith,
}

abbrev pub text_before : String → String → Bool
text_before String.[] String.[] = false
text_before String.[] (String.◌∷◌ d t) = true
text_before (String.◌∷◌ c s) String.[] = false
text_before (String.◌∷◌ c s) (String.◌∷◌ d t) =
    let rest = text_before s t in
    if ltb (code c) (code d) then true else (if ltb (code d) (code c) then false else rest)

pub before_irrefl : (a : String) → text_before a a ≡ false
before_irrefl String.[] = refl
before_irrefl (String.◌∷◌ c s) = ground (arith, before_irrefl s)

pub before_trans :
    (a b c : String) → text_before a b ≡ true → text_before b c ≡ true → text_before a c ≡ true
before_trans String.[] String.[] c h k = k
before_trans String.[] (String.◌∷◌ d t) String.[] h k = k
before_trans String.[] (String.◌∷◌ d t) (String.◌∷◌ e u) h k = refl
before_trans (String.◌∷◌ c s) String.[] e h k = ground arith
before_trans (String.◌∷◌ c s) (String.◌∷◌ d t) String.[] h k = k
before_trans (String.◌∷◌ c s) (String.◌∷◌ d t) (String.◌∷◌ e u) h k =
    ground (arith, before_trans s t u)

same_code : (c d : Char) → code c ≡ code d → c ≡ d
same_code c d h = codes_equal c d (ground arith)

pub before_total : (a b : String) → a ≢ b → (text_before a b || text_before b a) ≡ true
before_total String.[] String.[] h = ground arith
before_total String.[] (String.◌∷◌ d t) h = refl
before_total (String.◌∷◌ c s) String.[] h = refl
before_total (String.◌∷◌ c s) (String.◌∷◌ d t) h = elim (Bool-cases (ltb (code c) (code d))) [
  | inl less ↦ ground arith
  | inr not_less ↦ elim (Bool-cases (ltb (code d) (code c))) [
    | inl more ↦ ground arith
    | inr not_more ↦
        let one : c ≡ d = same_code c d (ground arith) in
        let rest = before_total s t (λ e. h (cc)) in ground arith
  ]
]

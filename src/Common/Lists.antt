-- ===== src/Common/Lists.antt =====
-- Lists measured by native numbers, and the list operations that a query on a table stands for.
use Prim.Native.Nat.{ℕ, zero, suc, ◌+◌}
use mathlib.Core.Path.{◌≡◌, refl}
use mathlib.Core.Logic.{◌≢◌}
use mathlib.Core.Bool.{Bool, true, false}
use mathlib.Core.List.{List, [], ◌∷◌, ◌++◌}
use mathlib.Core.Option.{Option, none, some}
use native.Mathlib.Omega.{arith}
use tickethub_backend.Common.Tests.{if◌then◌else◌}

module _ {ℓ} {A : Type ℓ} where
  abbrev pub length : List A → ℕ
  length [] = 0
  length (x ∷ xs) = suc (length xs)

  abbrev pub take : ℕ → List A → List A
  take zero xs = []
  take (suc n) [] = []
  take (suc n) (x ∷ xs) = x ∷ take n xs

  -- The first element that passes the test.
  abbrev pub find : (A → Bool) → List A → Option A
  find p [] = none
  find p (x ∷ xs) = if p x then some x else find p xs

  abbrev pub filter : (A → Bool) → List A → List A
  filter p [] = []
  filter p (x ∷ xs) = let rest = filter p xs in if p x then x ∷ rest else rest

  -- The number of elements that pass the test.
  abbrev pub count : (A → Bool) → List A → ℕ
  count p [] = 0
  count p (x ∷ xs) = (if p x then 1 else 0) + count p xs

  -- The elements that pass the test, changed; the others as they are.
  abbrev pub update : (A → Bool) → (A → A) → List A → List A
  update p f [] = []
  update p f (x ∷ xs) = (if p x then f x else x) ∷ update p f xs

  abbrev pub any : (A → Bool) → List A → Bool
  any p [] = false
  any p (x ∷ xs) = if p x then true else any p xs

  abbrev pub All {κ} : (A → Type κ) → List A → Type κ
  All P [] = Unit
  All P (x ∷ xs) = P x × All P xs

  pub length-append : (xs ys : List A) → length (xs ++ ys) ≡ length xs + length ys
  length-append [] ys = omega arith
  length-append (x ∷ xs) ys = omega (arith, length-append xs ys)

  pub length-snoc : (xs : List A) (x : A) → length (xs ++ x ∷ []) ≡ length xs + 1
  length-snoc [] x = omega arith
  length-snoc (y ∷ xs) x = omega (arith, length-snoc xs x)

  pub count-snoc :
      (p : A → Bool) (xs : List A) (x : A)
      → count p (xs ++ x ∷ []) ≡ count p xs + (if p x then 1 else 0)
  count-snoc p [] x = omega arith
  count-snoc p (y ∷ xs) x = omega (arith, count-snoc p xs x)

  pub count-append : (p : A → Bool) (xs ys : List A) → count p (xs ++ ys) ≡ count p xs + count p ys
  count-append p [] ys = omega arith
  count-append p (x ∷ xs) ys = omega (arith, count-append p xs ys)

module _ {ℓ} {A : Type ℓ} where
  -- No element passes the test exactly when none is counted; then an update changes nothing.
  pub update-count_zero :
      (p : A → Bool) (f : A → A) (xs : List A) → count p xs ≡ 0 → update p f xs ≡ xs
  update-count_zero p f [] h = refl
  update-count_zero p f (x ∷ xs) h = ground (arith, update-count_zero p f xs (ground arith))

  -- An update after which no element passes a test that none outside the update passed.
  pub count-update_zero :
      (p q : A → Bool) (f : A → A) (xs : List A)
      → ((x : A) → p x ≡ true → q (f x) ≡ false)
      → ((x : A) → p x ≡ false → q x ≡ false)
      → count q (update p f xs) ≡ 0
  count-update_zero p q f [] h k = refl
  count-update_zero p q f (x ∷ xs) h k = ground (arith, h x, k x, count-update_zero p q f xs h k)

  -- What is found passes the test, and any test that it passes counts something.
  pub find-passes : (p : A → Bool) (xs : List A) {x : A} → find p xs ≡ some x → p x ≡ true
  find-passes p [] h = cc
  find-passes p (y ∷ xs) {x} h = ground (arith, find-passes p xs {x = x})

  pub find-count :
      (p q : A → Bool) (xs : List A) {x : A} → find p xs ≡ some x → q x ≡ true → count q xs ≢ 0
  find-count p q [] h k = cc
  find-count p q (y ∷ xs) {x} h k = ground (arith, find-count p q xs {x = x})

  -- What is found before an update is found after it, changed where the update meets it.
  pub find-update_at :
      (q p : A → Bool) (f : A → A) (xs : List A) {x : A}
      → ((a : A) → q (f a) ≡ q a)
      → find q xs ≡ some x
      → find q (update p f xs) ≡ some (if p x then f x else x)
  find-update_at q p f [] same h = cc
  find-update_at q p f (y ∷ ys) {x} same h =
      ground (arith, find-update_at q p f ys {x = x} same, same y)

  pub find-update_absent :
      (q p : A → Bool) (f : A → A) (xs : List A)
      → ((a : A) → q (f a) ≡ q a)
      → find q xs ≡ none
      → find q (update p f xs) ≡ none
  find-update_absent q p f [] same h = refl
  find-update_absent q p f (y ∷ ys) same h =
      ground (arith, find-update_absent q p f ys same, same y)

  -- What is found in a list is found before anything added behind it; otherwise the search goes on.
  pub find-append_some :
      (q : A → Bool) (xs ys : List A) {x : A} → find q xs ≡ some x → find q (xs ++ ys) ≡ some x
  find-append_some q [] ys h = cc
  find-append_some q (y ∷ xs) ys {x} h = ground (arith, find-append_some q xs ys {x = x})

  pub find-append_none :
      (q : A → Bool) (xs ys : List A) → find q xs ≡ none → find q (xs ++ ys) ≡ find q ys
  find-append_none q [] ys h = refl
  find-append_none q (y ∷ xs) ys h = ground (arith, find-append_none q xs ys)

  pub All-update :
      {P : A → Type 0} (q : A → Bool) (f : A → A) (xs : List A)
      → ((x : A) → q x ≡ true → P (f x))
      → ((x : A) → q x ≡ false → P x)
      → All P (update q f xs)
  All-update q f [] h k = tt
  All-update {P} q f (x ∷ xs) h k = (ground (arith, h x, k x), All-update {P = P} q f xs h k)

  pub absent_weaken :
      (p q : A → Bool) (xs : List A)
      → ((x : A) → p x ≡ false → q x ≡ false)
      → find p xs ≡ none
      → find q xs ≡ none
  absent_weaken p q [] h k = refl
  absent_weaken p q (x ∷ xs) h k = ground (arith, absent_weaken p q xs h, h x)

  pub All-weaken : (P Q : A → Type 0) (xs : List A) → ((x : A) → P x → Q x) → All P xs → All Q xs
  All-weaken P Q [] f h = tt
  All-weaken P Q (x ∷ xs) f (h, hs) = (f x h, All-weaken P Q xs f hs)

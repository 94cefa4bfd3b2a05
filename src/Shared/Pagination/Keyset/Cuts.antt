-- ===== src/Shared/Pagination/Keyset/Cuts.antt =====
-- Lists that are cut into pages.
use tickethub_backend.Common.{ℕ, zero, suc, ◌≤◌, ◌<◌, ◌≡◌, refl, ap, some, arith}
use tickethub_backend.Common.{List, [], ◌∷◌, ◌++◌, map, length, take}
use tickethub_backend.Shared.Pagination.{last}

abbrev pub drop : {A : Type 0} → ℕ → List A → List A
drop zero xs = xs
drop (suc n) [] = []
drop (suc n) (x ∷ xs) = drop n xs

-- A list that is longer than a page: the page ends with an element, and the rest follows it.
pub record IsCut {A : Type 0} (m : ℕ) (xs : List A) : Type 0 where
  pub front : List A
  pub end_ : A
  pub page : take (suc m) xs ≡ front ++ end_ ∷ []
  pub whole : xs ≡ front ++ end_ ∷ drop (suc m) xs
  pub last_is : last (take (suc m) xs) ≡ some end_

pub cut : {A : Type 0} (m : ℕ) (xs : List A) → suc m < length xs → IsCut m xs
cut m [] h = absurd (omega (arith, h))
cut zero (x ∷ xs) h = record { front = []; end_ = x; page = refl; whole = refl; last_is = refl }
cut (suc m) (x ∷ []) h = absurd (omega (arith, h))
cut (suc m) (x ∷ (y ∷ ys)) h =
    let c = cut m (y ∷ ys) (omega (arith, h)) in
    record {
      front = x ∷ c.front;
      end_ = c.end_;
      page = ap (λ (l : List _). x ∷ l) c.page;
      whole = ap (λ (l : List _). x ∷ l) c.whole;
      last_is = c.last_is;
    }

-- A page is made from one item more than it shows.
pub take-take : {A : Type 0} (n : ℕ) (xs : List A) → take n (take (suc n) xs) ≡ take n xs
take-take zero xs = refl
take-take (suc n) [] = refl
take-take (suc n) (x ∷ xs) = ap (λ (l : List _). x ∷ l) (take-take n xs)

pub take_short : {A : Type 0} (n : ℕ) (xs : List A) → length xs ≤ n → take (suc n) xs ≡ xs
take_short n [] h = refl
take_short zero (x ∷ xs) h = absurd (omega (arith, h))
take_short (suc n) (x ∷ xs) h = ap (λ (l : List _). x ∷ l) (take_short n xs (omega (arith, h)))

pub length-take_more :
    {A : Type 0} (n : ℕ) (xs : List A) → n < length xs → length (take (suc n) xs) ≡ suc n
length-take_more n [] h = absurd (omega (arith, h))
length-take_more zero (x ∷ xs) h = omega arith
length-take_more (suc n) (x ∷ xs) h = omega (arith, length-take_more n xs (omega (arith, h)))

pub length-map : {A B : Type 0} (f : A → B) (xs : List A) → length (map f xs) ≡ length xs
length-map f [] = refl
length-map f (x ∷ xs) = omega (arith, length-map f xs)

pub take-map :
    {A B : Type 0} (f : A → B) (n : ℕ) (xs : List A) → take n (map f xs) ≡ map f (take n xs)
take-map f zero xs = refl
take-map f (suc n) [] = refl
take-map f (suc n) (x ∷ xs) = ap (λ (l : List _). f x ∷ l) (take-map f n xs)

pub last-map :
    {A B : Type 0} (f : A → B) (xs : List A) (x : A)
    → last xs ≡ some x
    → last (map f xs) ≡ some (f x)
last-map f [] x h = cc
last-map f (y ∷ []) x h = cc
last-map f (y ∷ (z ∷ zs)) x h = last-map f (z ∷ zs) x h

pub map-append :
    {A B : Type 0} (f : A → B) (xs ys : List A) → map f (xs ++ ys) ≡ map f xs ++ map f ys
map-append f [] ys = refl
map-append f (x ∷ xs) ys = ap (λ (l : List _). f x ∷ l) (map-append f xs ys)

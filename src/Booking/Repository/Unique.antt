-- ===== src/Booking/Repository/Unique.antt =====
-- Lists of rows under a unique constraint: what may be added, and what a change leaves.
use tickethub_backend.Common.{◌≡◌, refl, ap, inl, inr, Bool, ◌&&◌, arith}
use tickethub_backend.Common.{List, [], ◌∷◌, ◌++◌, any, update, if◌then◌else◌, Bool-cases}
use mathlib.Core.List.{append_assoc, append-nil}
use tickethub_backend.Platform.{insertable}

-- Lists of rows each of which clashes with none before it.
module _ {R : Type 0} (clash : R → R → Bool) where
  pub insertable-append :
      (xs ys old : List R)
      → insertable clash (xs ++ ys) old
        ≡ (insertable clash xs old && insertable clash ys (old ++ xs))
  insertable-append [] ys old = ground (arith, append-nil old)
  insertable-append (x ∷ xs) ys old =
      ground (arith, insertable-append xs ys (old ++ x ∷ []), append_assoc old (x ∷ []) xs)

  any-update :
      (q : R → Bool) (f : R → R) (r : R) (xs : List R)
      → ((a b : R) → clash (f a) b ≡ clash a b)
      → ((a b : R) → clash a (f b) ≡ clash a b)
      → any (clash r) (update q f xs) ≡ any (clash r) xs
  any-update q f r [] h k = refl
  any-update q f r (x ∷ xs) h k = ground (arith, any-update q f r xs h k, k r x)

  any-same :
      (f : R → R) (r : R) (xs : List R)
      → ((a b : R) → clash (f a) b ≡ clash a b)
      → any (clash (f r)) xs ≡ any (clash r) xs
  any-same f r [] h = refl
  any-same f r (x ∷ xs) h = ground (arith, any-same f r xs h, h r x)

  update-append :
      (q : R → Bool) (f : R → R) (xs ys : List R)
      → update q f (xs ++ ys) ≡ update q f xs ++ update q f ys
  update-append q f [] ys = refl
  update-append q f (x ∷ xs) ys =
      ap (λ (l : List R). (if q x then f x else x) ∷ l) (update-append q f xs ys)

  -- A change that the constraints do not see makes no clash.
  pub insertable-update :
      (q : R → Bool) (f : R → R) (xs old : List R)
      → ((a b : R) → clash (f a) b ≡ clash a b)
      → ((a b : R) → clash a (f b) ≡ clash a b)
      → insertable clash (update q f xs) (update q f old) ≡ insertable clash xs old
  insertable-update q f [] old h k = refl
  insertable-update q f (x ∷ xs) old h k = elim (Bool-cases (q x)) [
    | inl yes_ ↦ ground (
      arith,
      insertable-update q f xs (old ++ x ∷ []) h k,
      update-append q f old (x ∷ []),
      any-update q f (f x) old h k,
      any-same f x old h,
    )
    | inr no_ ↦ ground (
      arith,
      insertable-update q f xs (old ++ x ∷ []) h k,
      update-append q f old (x ∷ []),
      any-update q f x old h k,
    )
  ]

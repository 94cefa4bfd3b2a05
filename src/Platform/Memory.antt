-- ===== src/Platform/Memory.antt =====
-- A platform that keeps everything in lists and functions, for runs and for the theorems at
-- concrete inputs: it shows that what `IsLawful` asks for can be had.
use native.Mathlib.Nat.{mul-le-mul_left, div-lt_iff_lt-mul}
use tickethub_backend.Common.{
  ℕ, zero, suc, ◌≡◌, refl, ap, ◌≢◌, ◌≤◌, ◌<◌, ◌+◌, ◌-◌, ◌*◌, ◌/◌, String, Bool, true, Option, none,
  some,
}
use tickethub_backend.Common.{
  List, [], ◌∷◌, ◌++◌, ◌&&◌, find, filter, count, update, any, arith, if◌then◌else◌,
}
use tickethub_backend.Common.{ltb, leb, ◌==◌, string_eq}
use tickethub_backend.Common.{take}
use tickethub_backend.Common.Sorted.{sort}
use tickethub_backend.Platform.TextOrder.{text_before, before_irrefl, before_trans, before_total}
use tickethub_backend.Errors.{Result, ok, err, Failure}
use tickethub_backend.Platform.{Platform, IsLawful, insertable}

abbrev insert_all : {R : Type 0} → (R → R → Bool) → List R → List R → Option (List R)
insert_all clash rs old = if insertable clash rs old then some (old ++ rs) else none

-- A transaction on a state that can be put back.
abbrev atomically : {S A : Type 0} → (S → Result A × S) → S → Result A × S
atomically m s = let (r, s') = m s in elim r [ ok a ↦ (ok a, s') | err e ↦ (err e, s) ]

-- Entries with the time at which they end.
abbrev Entries : Type 0
Entries = List (String × ℕ × String)

abbrev read : ℕ → String → Entries → Option String
read now key [] = none
read now key ((k, until, v) ∷ es) =
    if k == key then (if ltb now until then some v else none) else read now key es

abbrev remove : String → Entries → Entries
remove key [] = []
remove key ((k, until, v) ∷ es) =
    let rest = remove key es in if k == key then rest else (k, until, v) ∷ rest

abbrev is_locked : ℕ → String → List (String × ℕ) → Bool
is_locked now resource = any (λ e. resource == e.0 && ltb now e.1)

abbrev unlock : String × ℕ → List (String × ℕ) → List (String × ℕ)
unlock l [] = []
unlock l ((k, until) ∷ ls) = if l.0 == k then ls else (k, until) ∷ unlock l ls

-- Texts that differ for different numbers.
abbrev unary : ℕ → String
unary zero = "id"
unary (suc n) = String.◌∷◌ "i" (unary n)

-- Positive fractions: a numerator and the number before the denominator. `Math.round` adds a half and rounds down.
abbrev Fraction : Type 0
Fraction = ℕ × ℕ

abbrev power_of_ten : ℕ → ℕ
power_of_ten zero = 1
power_of_ten (suc n) = 10 * power_of_ten n

instance unfoldable pub memory : Platform
unfolding string_eq
memory = record {
  Table = List;
  rows = λ t. t;
  find_first = find;
  find_many = filter;
  count_where = count;
  update_many = λ q f t. (update q f t, count q t);
  find_many_by = λ q key t. filter q t;
  find_page = λ q before n t. take n (filter q (sort before t));
  text_lt = text_before;
  contains = λ text part. text == part;
  text_matches = λ query document. query == document;
  ranks_above = λ query a b. a == query;
  create = λ clash r t. if any (clash r) t then none else some (t ++ r ∷ []);
  create_many = insert_all;
  transaction = atomically;
  Redis = Entries;
  redis_get = read;
  redis_setex = λ now key ttl value r. (key, now + ttl * 1000, value) ∷ r;
  redis_del = remove;
  Locks = List (String × ℕ);
  Lock = String × ℕ;
  locked = is_locked;
  acquire = λ now resource ttl s.
      if is_locked now resource s
      then none
      else some ((resource, now + ttl), (resource, now + ttl) ∷ s);
  release = λ l s. some (unlock l s);
  clock = λ i. 1000000 + i;
  uuid = unary;
  Float = Fraction;
  literal = λ n d. (n, power_of_ten d - 1);
  product = λ x y. (x.0 * y.0, suc x.1 * suc y.1 - 1);
  float_lt = λ x y. ltb (x.0 * suc y.1) (y.0 * suc x.1);
  float_le = λ x y. leb (x.0 * suc y.1) (y.0 * suc x.1);
  round_product = λ n x. (2 * n * x.0 + suc x.1) / (2 * suc x.1);
}

read-set :
    (now key_until : ℕ) (key : String) (value : String) (r : Entries)
    → now < key_until
    → read now key ((key, key_until, value) ∷ r) ≡ some value
read-set now key_until key value r h = ground arith

read-remove : (now : ℕ) (key : String) (r : Entries) → read now key (remove key r) ≡ none
read-remove now key [] = refl
read-remove now key ((k, until, v) ∷ es) = ground (arith, read-remove now key es)

read-ne :
    (now : ℕ) (key other : String) (until : ℕ) (value : String) (r : Entries)
    → other ≢ key
    → read now other ((key, until, value) ∷ r) ≡ read now other r
read-ne now key other until value r h = ground arith

-- What `acquire` is on the list of locks.
abbrev grant : ℕ → String → ℕ → List (String × ℕ) → Option ((String × ℕ) × List (String × ℕ))
grant now resource ttl s =
    if is_locked now resource s
    then none
    else some ((resource, now + ttl), (resource, now + ttl) ∷ s)

grant-locked :
    (now later : ℕ) (resource : String) (ttl : ℕ) (s : List (String × ℕ)) (l : String × ℕ)
    (s' : List (String × ℕ))
    → grant now resource ttl s ≡ some (l, s')
    → later < now + ttl
    → is_locked later resource s' ≡ true
grant-locked now later resource ttl s l s' h k =
    let e : (resource, now + ttl) ∷ s ≡ s' = ground arith in rw (← e) (ground arith)

grant-locked_other :
    (now later : ℕ) (resource other : String) (ttl : ℕ) (s : List (String × ℕ)) (l : String × ℕ)
    (s' : List (String × ℕ))
    → grant now resource ttl s ≡ some (l, s')
    → is_locked later other s ≡ true
    → is_locked later other s' ≡ true
grant-locked_other now later resource other ttl s l s' h k =
    let e : (resource, now + ttl) ∷ s ≡ s' = ground arith in rw (← e) (ground arith)

atomically_ok :
    {S A : Type 0} (m : S → Result A × S) (s s' : S) (a : A)
    → m s ≡ (ok a, s')
    → atomically m s ≡ (ok a, s')
atomically_ok m s s' a h = ground arith

atomically_err :
    {S A : Type 0} (m : S → Result A × S) (s s' : S) (e : Failure)
    → m s ≡ (err e, s')
    → atomically m s ≡ (err e, s)
atomically_err m s s' e h = ground arith

abbrev size : String → ℕ
size String.[] = 0
size (String.◌∷◌ c s) = suc (size s)

size-unary : (n : ℕ) → size (unary n) ≡ n + 2
size-unary zero = refl
size-unary (suc n) = omega (arith, size-unary n)

unary_injective : (i j : ℕ) → unary i ≡ unary j → i ≡ j
unary_injective i j h = omega (arith, ap size h, size-unary i, size-unary j)

le-round : (n a b : ℕ) → suc b ≤ a → n ≤ (2 * n * a + suc b) / (2 * suc b)
le-round n a b h = grind arith

round-le : (n a b : ℕ) → a ≤ suc b → (2 * n * a + suc b) / (2 * suc b) ≤ n
round-le n a b h =
    let bound : 2 * n * a + suc b < suc n * (2 * suc b) = omega (arith, mul-le-mul_left n h) in
    omega (arith, (div-lt_iff_lt-mul {k = 2 * suc b} {y = suc n} (omega arith)).1 bound)

pub memory-IsLawful : IsLawful memory
unfolding memory
memory-IsLawful = record {
  find_first-rows = λ q t. refl;
  find_many-count = λ g q t. refl;
  count_where-rows = λ q t. refl;
  rows-update_many = λ q f t. refl;
  count-update_many = λ q f t. refl;
  create_fresh = λ clash r t h. (t ++ r ∷ [], rw h, refl);
  create_clash = λ clash r t h. rw h;
  find_many_by-rows = λ q key t h. refl;
  find_page-rows = λ q before n t h. refl;
  text_lt_irrefl = before_irrefl;
  text_lt_trans = before_trans;
  text_lt_total = before_total;
  transaction_ok = λ m s s' a h. atomically_ok m s s' a h;
  transaction_err = λ m s s' e h. atomically_err m s s' e h;
  create_many_fresh = λ clash rs t h. (t ++ rs, rw h, refl);
  create_many_clash = λ clash rs t h. rw h;
  redis_get-setex = λ now at key ttl value r h k. read-set now (at + ttl * 1000) key value r k;
  redis_get-setex_ne = λ now at key other ttl value r h. read-ne now key other _ value r h;
  redis_get-del = λ now key r. read-remove now key r;
  acquire_locked = λ now resource ttl s h. rw h;
  locked-acquire =
      λ now later resource ttl s l s' h k. grant-locked now later resource ttl s l s' h k;
  locked-acquire_other = λ now later resource other ttl s l s' h k.
      grant-locked_other now later resource other ttl s l s' h k;
  clock_mono = λ i j h. omega arith;
  uuid_injective = unary_injective;
  le-round_product = λ n x h. le-round n x.0 x.1 (ground arith);
  round_product-le = λ n x h. round-le n x.0 x.1 (ground arith);
}

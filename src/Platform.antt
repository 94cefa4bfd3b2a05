-- ===== src/Platform.antt =====
-- What the backend runs on and does not implement: the database client, Redis, Redlock, the clock,
-- random identifiers. The operations are those that the source calls; `IsLawful` says what their
-- documentation promises.
pub mod Memory
mod TextOrder
use tickethub_backend.Common.{
  ℕ, ◌≡◌, ◌≢◌, ◌≤◌, ◌<◌, ◌+◌, ◌*◌, String, Bool, true, false, Option, none, some,
}
use tickethub_backend.Common.{
  List, [], ◌∷◌, ◌++◌, not, ◌&&◌, find, filter, count, update, any, take, All, ◌||◌,
}
use tickethub_backend.Common.Sorted.{sort, Comparable}
use tickethub_backend.Errors.{Failure, Result, ok, err}

-- A write of these rows violates no unique constraint: none clashes with a row of the table or
-- with one before it.
abbrev pub insertable : {R : Type 0} → (R → R → Bool) → List R → List R → Bool
insertable clash [] old = true
insertable clash (r ∷ rs) old = not (any (clash r) old) && insertable clash rs (old ++ r ∷ [])

-- The keys rise strictly along the list.
abbrev pub Ascending : {R : Type 0} → (R → ℕ) → List R → Type 0
Ascending key [] = Unit
Ascending key (r ∷ rs) = All (λ s. key r < key s) rs × Ascending key rs

pub record Platform : Type 1 where
  -- A table of the database, with the calls of Prisma on it. `create` takes the table's unique
  -- constraints and gives `none` if they refuse a row.
  pub Table : Type 0 → Type 0
  pub rows : {R : Type 0} → Table R → List R
  pub find_first : {R : Type 0} → (R → Bool) → Table R → Option R
  pub find_many : {R : Type 0} → (R → Bool) → Table R → List R
  pub count_where : {R : Type 0} → (R → Bool) → Table R → ℕ
  pub update_many : {R : Type 0} → (R → Bool) → (R → R) → Table R → Table R × ℕ
  pub find_many_by : {R : Type 0} → (R → Bool) → (R → ℕ) → Table R → List R
  pub create : {R : Type 0} → (R → R → Bool) → R → Table R → Option (Table R)
  pub create_many : {R : Type 0} → (R → R → Bool) → List R → Table R → Option (Table R)
  -- `findMany` with `where`, `orderBy` and `take`; the order is that of the rows' keys.
  pub find_page : {R : Type 0} → (R → Bool) → (R → R → Bool) → ℕ → Table R → List R
  -- How the database orders texts, and looks for one in another without regard to case.
  pub text_lt : String → String → Bool
  pub contains : String → String → Bool
  -- Full-text search: whether a query meets a document, and which of two documents it ranks above.
  pub text_matches : String → String → Bool
  pub ranks_above : String → String → String → Bool
  -- `$transaction`
  pub transaction : {S A : Type 0} → (S → Result A × S) → S → Result A × S
  -- Redis, at a time in milliseconds; `setex` takes a life in seconds.
  pub Redis : Type 0
  pub redis_get : ℕ → String → Redis → Option String
  pub redis_setex : ℕ → String → ℕ → String → Redis → Redis
  pub redis_del : String → Redis → Redis
  -- Redlock: `acquire` at a time, for a number of milliseconds; `none` is a rejection.
  pub Locks : Type 0
  pub Lock : Type 0
  pub locked : ℕ → String → Locks → Bool
  pub acquire : ℕ → String → ℕ → Locks → Option (Lock × Locks)
  pub release : Lock → Locks → Option Locks
  -- The readings of the clock in the order in which they are made, and the identifiers drawn.
  pub clock : ℕ → ℕ
  pub uuid : ℕ → String
  -- Floating point, for positive finite numbers: decimal literals (a numerator and a power of
  -- ten), products, tests, and `Math.round(n * x)`.
  pub Float : Type 0
  pub literal : ℕ → ℕ → Float
  pub product : Float → Float → Float
  pub float_lt : Float → Float → Bool
  pub float_le : Float → Float → Bool
  pub round_product : ℕ → Float → ℕ

pub record IsLawful (p : Platform) : Type 1 where
  pub find_first-rows :
      {R : Type 0} (q : R → Bool) (t : p.Table R) → p.find_first q t ≡ find q (p.rows t)
  -- Without `orderBy` the rows that pass the test come in any order, each as often as it is there:
  -- every test counts as many among them.
  pub find_many-count :
      {R : Type 0} (g q : R → Bool) (t : p.Table R)
      → count g (p.find_many q t) ≡ count g (filter q (p.rows t))
  pub count_where-rows :
      {R : Type 0} (q : R → Bool) (t : p.Table R) → p.count_where q t ≡ count q (p.rows t)
  pub rows-update_many :
      {R : Type 0} (q : R → Bool) (f : R → R) (t : p.Table R)
      → p.rows (p.update_many q f t).0 ≡ update q f (p.rows t)
  pub count-update_many :
      {R : Type 0} (q : R → Bool) (f : R → R) (t : p.Table R)
      → (p.update_many q f t).1 ≡ count q (p.rows t)
  pub create_many_fresh :
      {R : Type 0} (clash : R → R → Bool) (rs : List R) (t : p.Table R)
      → insertable clash rs (p.rows t) ≡ true
      → (t' : p.Table R) × (p.create_many clash rs t ≡ some t') × (p.rows t' ≡ p.rows t ++ rs)
  pub create_many_clash :
      {R : Type 0} (clash : R → R → Bool) (rs : List R) (t : p.Table R)
      → insertable clash rs (p.rows t) ≡ false
      → p.create_many clash rs t ≡ none
  pub create_fresh :
      {R : Type 0} (clash : R → R → Bool) (r : R) (t : p.Table R)
      → any (clash r) (p.rows t) ≡ false
      → (t' : p.Table R) × (p.create clash r t ≡ some t') × (p.rows t' ≡ p.rows t ++ r ∷ [])
  pub create_clash :
      {R : Type 0} (clash : R → R → Bool) (r : R) (t : p.Table R)
      → any (clash r) (p.rows t) ≡ true
      → p.create clash r t ≡ none
  -- `orderBy`: rows that differ in the key come in its order; those that stand so already stay.
  pub find_many_by-rows :
      {R : Type 0} (q : R → Bool) (key : R → ℕ) (t : p.Table R)
      → Ascending key (filter q (p.rows t))
      → p.find_many_by q key t ≡ filter q (p.rows t)
  -- Rows that the order tells apart come in that order, those that pass the test, up to the number.
  pub find_page-rows :
      {R : Type 0} (q : R → Bool) (before : R → R → Bool) (n : ℕ) (t : p.Table R)
      → Comparable before (p.rows t)
      → p.find_page q before n t ≡ take n (filter q (sort before (p.rows t)))
  pub text_lt_irrefl : (a : String) → p.text_lt a a ≡ false
  pub text_lt_trans :
      (a b c : String) → p.text_lt a b ≡ true → p.text_lt b c ≡ true → p.text_lt a c ≡ true
  pub text_lt_total : (a b : String) → a ≢ b → (p.text_lt a b || p.text_lt b a) ≡ true
  -- A transaction whose body throws leaves nothing behind.
  pub transaction_ok :
      {S A : Type 0} (m : S → Result A × S) (s s' : S) (a : A)
      → m s ≡ (ok a, s')
      → p.transaction m s ≡ (ok a, s')
  pub transaction_err :
      {S A : Type 0} (m : S → Result A × S) (s s' : S) (e : Failure)
      → m s ≡ (err e, s')
      → p.transaction m s ≡ (err e, s)
  pub redis_get-setex :
      (now at : ℕ) (key : String) (ttl : ℕ) (value : String) (r : p.Redis)
      → at ≤ now
      → now < at + ttl * 1000
      → p.redis_get now key (p.redis_setex at key ttl value r) ≡ some value
  pub redis_get-setex_ne :
      (now at : ℕ) (key other : String) (ttl : ℕ) (value : String) (r : p.Redis)
      → other ≢ key
      → p.redis_get now other (p.redis_setex at key ttl value r) ≡ p.redis_get now other r
  pub redis_get-del :
      (now : ℕ) (key : String) (r : p.Redis) → p.redis_get now key (p.redis_del key r) ≡ none
  -- A resource that is locked is granted to nobody else.
  pub acquire_locked :
      (now : ℕ) (resource : String) (ttl : ℕ) (s : p.Locks)
      → p.locked now resource s ≡ true
      → p.acquire now resource ttl s ≡ none
  -- A grant locks its resource until its time is over, and unlocks nothing.
  pub locked-acquire :
      (now later : ℕ) (resource : String) (ttl : ℕ) (s : p.Locks) (l : p.Lock) (s' : p.Locks)
      → p.acquire now resource ttl s ≡ some (l, s')
      → later < now + ttl
      → p.locked later resource s' ≡ true
  pub locked-acquire_other :
      (now later : ℕ) (resource other : String) (ttl : ℕ) (s : p.Locks) (l : p.Lock) (s' : p.Locks)
      → p.acquire now resource ttl s ≡ some (l, s')
      → p.locked later other s ≡ true
      → p.locked later other s' ≡ true
  pub clock_mono : (i j : ℕ) → i ≤ j → p.clock i ≤ p.clock j
  pub uuid_injective : (i j : ℕ) → p.uuid i ≡ p.uuid j → i ≡ j
  -- Rounding is monotone: a factor of at least 1 lowers nothing, a factor of at most 1 raises nothing.
  pub le-round_product :
      (n : ℕ) (x : p.Float) → p.float_le (p.literal 1 0) x ≡ true → n ≤ p.round_product n x
  pub round_product-le :
      (n : ℕ) (x : p.Float) → p.float_le x (p.literal 1 0) ≡ true → p.round_product n x ≤ n

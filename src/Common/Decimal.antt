-- ===== src/Common/Decimal.antt =====
-- How JavaScript prints a whole number in a template literal.
use Prim.Native.Nat.{ℕ, zero, suc, ◌/◌, ◌%◌}
use Prim.Native.String.{String, ◌++◌ as ◌<>◌}
use tickethub_backend.Common.Tests.{◌==◌, nat_eq, if◌then◌else◌}

digit : ℕ → String
digit n =
    if n == 0
    then "0"
    else if n == 1
    then "1"
    else if n == 2
    then "2"
    else if n == 3
    then "3"
    else if n == 4
    then "4"
    else if n == 5
    then "5"
    else if n == 6
    then "6"
    else if n == 7
    then "7"
    else if n == 8
    then "8"
    else "9"

-- The digits of `n`, lowest last, before `acc`. A number has fewer digits than its value plus one.
decimal_loop : ℕ → ℕ → String → String
decimal_loop zero n acc = acc
decimal_loop (suc fuel) n acc =
    let acc' = digit (n % 10) <> acc in
    let rest = decimal_loop fuel (n / 10) acc' in if n / 10 == 0 then acc' else rest

unfoldable pub decimal : ℕ → String
unfolding decimal_loop digit nat_eq
decimal n = decimal_loop (suc n) n ""

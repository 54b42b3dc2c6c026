-- ===== src/Mtproto/Pq.antt =====
-- pkg/mtproto/pq.go: the factorisation that a client has to show before the key exchange.
pub mod Factors
use messaging_app.Prelude.{
  List, Option, Result, [], err, if◌then◌else◌, leb, ltb, none, not, ok, refuse, some, suc, zero, ℕ,
  ◌%◌, ◌*◌, ◌+◌, ◌-◌, ◌/◌, ◌==◌, ◌>>=◌, ◌>>◌, ◌^◌, ◌||◌, ◌∷◌,
}
use messaging_app.Mtproto.{
  Error, no_random, no_semiprime, not_factored, not_factors, too_small_to_factor,
}

-- `VerifyPQ`; the product of unsigned 64-bit integers wraps.
unfoldable pub verify_pq : ℕ → ℕ → ℕ → Result Error Unit
verify_pq pq p q = do
  refuse (leb p 1 || (leb q 1 || (p == pq || q == pq))) not_factors
  refuse (not (p * q % 2 ^ 64 == pq)) not_factors

-- `randomPrime31`, over what `rand.Prime` gives one call after another: the first that is in range,
-- and the rest; `none` where the list ends or the reader fails.
unfoldable pub random_prime31 : List ℕ → Option (ℕ × List ℕ)
random_prime31 [] = none
random_prime31 (v ∷ primes) =
    let rest = random_prime31 primes in if leb (2 ^ 30) v then some (v, primes) else rest

-- `GeneratePQ` with `attempts` left: pq and its factors, the smaller one first.
unfoldable pub generate_pq : ℕ → List ℕ → Result Error (ℕ × ℕ × ℕ)
generate_pq zero primes = err no_semiprime
generate_pq (suc attempts) primes = elim (random_prime31 primes) [
  | none ↦ err no_random
  | some (p, primes') ↦ elim (random_prime31 primes') [
    | none ↦ err no_random
    | some (q, primes'') ↦
        let again = generate_pq attempts primes'' in
        if p == q
        then again
        else if ltb q p
        then ok (q * p % 2 ^ 64, q, p)
        else ok (p * q % 2 ^ 64, p, q)
  ]
]

-- `GCD` of math/big, by Euclid's algorithm; the fuel is more than the second number.
unfoldable pub gcd_fuel : ℕ → ℕ → ℕ → ℕ
gcd_fuel zero a b = a
gcd_fuel (suc n) a b = let rest = gcd_fuel n b (a % b) in if b == 0 then a else rest

abbrev pub gcd : ℕ → ℕ → ℕ
gcd a b = gcd_fuel (suc b) a b

-- `f` of `brent`
abbrev pub pollard_step : ℕ → ℕ → ℕ → ℕ
pollard_step n c x = (x * x + c) % n

-- The loop of `brent` from `x` and `y`, for `steps` turns at most; the source allows 2^22.
unfoldable pub brent : ℕ → ℕ → ℕ → ℕ → ℕ → Option ℕ
brent zero n c x y = none
brent (suc steps) n c x y =
    let x' = pollard_step n c x in
    let y' = pollard_step n c (pollard_step n c y) in
    let diff = (x' - y') + (y' - x') in
    let d = gcd diff n in
    if diff == 0
    then none
    else if ltb 1 d
    then (if d == n then none else some d)
    else brent steps n c x' y'

-- The loop of `FactorPQ` over the constants from `c` on, `tries` of them.
unfoldable pub try_constants : ℕ → ℕ → ℕ → ℕ → Result Error (ℕ × ℕ)
try_constants steps zero c pq = err not_factored
try_constants steps (suc tries) c pq =
    let rest = try_constants steps tries (c + 1) pq in
    elim (brent steps pq c 2 2) [
      | none ↦ rest
      | some f ↦
          if f == 1 || f == pq
          then rest
          else if ltb (pq / f) f
          then ok (pq / f, f)
          else ok (f, pq / f)
    ]

-- `FactorPQ`, with `maxSteps` as an argument.
unfoldable pub factor_pq : ℕ → ℕ → Result Error (ℕ × ℕ)
factor_pq steps pq =
    if ltb pq 4
    then err too_small_to_factor
    else if pq % 2 == 0
    then ok (2, pq / 2)
    else try_constants steps 63 1 pq

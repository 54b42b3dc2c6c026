-- ===== src/Mtproto/Pq/Factors.antt =====
-- What the factorisation and its check are good for.
use native.Mathlib.Nat.{add-mul, mod-lt, mul-div_cancel, mul-le-mul_left, mul_assoc, mul_comm}
use messaging_app.Prelude.{
  Bool-cases, Option-cases, arith, inl, inr, ltb, ok, refl, some, subst, suc, sym, zero, ℕ, ◌%◌,
  ◌*◌, ◌+◌, ◌-◌, ◌/◌, ◌<◌, ◌==◌, ◌^◌, ◌||◌, ◌↔◌, ◌∙◌, ◌≡◌, ◌≢◌, ◌≤◌,
}
use messaging_app.Mtproto.Pq.{
  brent, factor_pq, gcd, gcd_fuel, pollard_step, try_constants, verify_pq,
}
use native.Mathlib.Nat.{mod-add-div' as mod-add-div-mul}

-- For every pq from 1 to 2^63 - 1, VerifyPQ accepts 2^64 - pq and 2^64 - 1, which take no work to
-- find.
pub verify_pq_forged :
    (pq : ℕ) → 0 < pq → pq < 2 ^ 63 → verify_pq pq (2 ^ 64 - pq) (2 ^ 64 - 1) ≡ ok tt
unfolding verify_pq
verify_pq_forged pq positive small =
    let wraps : (2 ^ 64 - pq) * (2 ^ 64 - 1) % 2 ^ 64 ≡ pq = omega (arith, positive, small) in
    rw wraps (ground (arith, positive, small))

pub proper_factor : (p q : ℕ) → 1 < p → 1 < q → p < p * q
proper_factor p q hp hq = omega (arith, mul-le-mul_left p hq, hp)

-- A pair whose product is less than 2^64 is accepted exactly if both numbers are greater than 1
-- and their product is pq.
pub verify_pq_iff :
    (pq p q : ℕ) → p * q < 2 ^ 64 → (verify_pq pq p q ≡ ok tt) ↔ ((1 < p) × (1 < q) × (p * q ≡ pq))
unfolding verify_pq
verify_pq_iff pq p q fits =
    let exact : p * q % 2 ^ 64 ≡ p * q = omega (arith, fits) in
    rw exact (
      (λ accepted. (ground arith, ground arith, ground arith)),
      (λ (hp, hq, e).
          let p_less : p < p * q = proper_factor p q hp hq in
          let q_less : q < p * q = subst (λ n. q < n) (mul_comm q p) (proper_factor q p hq hp) in
          ground arith),
    )

-- `d` divides `n`
abbrev pub Divides : ℕ → ℕ → Type 0
Divides d n = (k : ℕ) × (n ≡ k * d)

Divides-mod : (d a b : ℕ) → Divides d b → Divides d (a % b) → Divides d a
Divides-mod d a b (k, kb) (j, jr) =
    (a / b * k + j, sym (mod-add-div-mul a b) ∙ rw (add-mul, mul_assoc, ← kb, ← jr) (omega arith))

Divides-gcd_fuel : (n a b : ℕ) → b < n → Divides (gcd_fuel n a b) a × Divides (gcd_fuel n a b) b
unfolding gcd_fuel
Divides-gcd_fuel zero a b h = absurd (omega arith)
Divides-gcd_fuel (suc n) a b h = elim (Bool-cases (b == 0)) [
  | inl zero_b ↦ rw zero_b ((1, omega arith), (0, ground arith))
  | inr positive ↦
      let pos : 0 < b = ground arith in
      let (dvd_b, dvd_r) = Divides-gcd_fuel n b (a % b) (omega (arith, mod-lt a pos, h)) in
      rw positive (Divides-mod (gcd_fuel n b (a % b)) a b dvd_b dvd_r, dvd_b)
]

Divides-brent : (steps n c x y d : ℕ) → brent steps n c x y ≡ some d → Divides d n
unfolding brent
Divides-brent zero n c x y d found = cc
Divides-brent (suc steps) n c x y d found =
    let x' = pollard_step n c x in
    let y' = pollard_step n c (pollard_step n c y) in
    let diff = (x' - y') + (y' - x') in
    let g = gcd diff n in
    let dvd = (Divides-gcd_fuel (suc n) diff n (omega arith)).1 in
    elim (Bool-cases (diff == 0)) [
      | inl cycle ↦ absurd (ground arith)
      | inr moved ↦ elim (Bool-cases (ltb 1 g)) [
        | inl factor ↦ elim (Bool-cases (g == n)) [
          | inl whole ↦ absurd (ground arith)
          | inr proper ↦ let same : g ≡ d = ground arith in subst (λ e. Divides e n) same dvd
        ]
        | inr coprime ↦ Divides-brent steps n c x' y' d (ground arith)
      ]
    ]

cofactor :
    (f pq : ℕ) → 4 ≤ pq → Divides f pq → f ≢ 1 → f ≢ pq → (pq / f * f ≡ pq) × (1 < f) × (1 < pq / f)
cofactor f pq large (zero, e) f1 fpq = absurd (omega (arith, e, large))
cofactor f pq large (suc zero, e) f1 fpq = absurd (fpq (omega (arith, e)))
cofactor zero pq large (suc (suc k), e) f1 fpq = absurd (omega (arith, e, large))
cofactor (suc zero) pq large (suc (suc k), e) f1 fpq = absurd (f1 refl)
cofactor (suc (suc f)) pq large (suc (suc k), e) f1 fpq =
    let quotient : pq / (suc (suc f)) ≡ suc (suc k) =
      rw e (mul-div_cancel (suc (suc k)) (omega arith)) in
    rw quotient (sym e, omega arith, omega arith)

try_constants_sound :
    (steps tries c pq p q : ℕ)
    → 4 ≤ pq
    → try_constants steps tries c pq ≡ ok (p, q)
    → (p * q ≡ pq) × (1 < p) × (1 < q) × (p ≤ q)
unfolding try_constants
try_constants_sound steps zero c pq p q large found = cc
try_constants_sound steps (suc tries) c pq p q large found =
    let rest = try_constants_sound steps tries (c + 1) pq p q large in
    elim (Option-cases (brent steps pq c 2 2)) [
      | inl missed ↦ rest (ground arith)
      | inr (f, hit) ↦ elim (Bool-cases (f == 1 || f == pq)) [
        | inl trivial ↦ rest (ground arith)
        | inr proper ↦
            let (e, hf, hg) =
              cofactor f pq large (Divides-brent steps pq c 2 2 f hit) (ground arith)
                (ground arith) in
            elim (Bool-cases (ltb (pq / f) f)) [
              | inl swap ↦
                  let ep : p ≡ pq / f = ground arith in
                  let eq : q ≡ f = ground arith in rw (ep, eq) (e, hg, hf, ground arith)
              | inr in_order ↦
                  let ep : p ≡ f = ground arith in
                  let eq : q ≡ pq / f = ground arith in
                  rw (ep, eq) (mul_comm f (pq / f) ∙ e, hf, hg, ground arith)
            ]
      ]
    ]

-- Factors that FactorPQ finds are greater than 1, in order, and their product is pq.
pub factor_pq_sound :
    (steps pq p q : ℕ) → factor_pq steps pq ≡ ok (p, q) → (p * q ≡ pq) × (1 < p) × (1 < q) × (p ≤ q)
unfolding factor_pq
factor_pq_sound steps pq p q found = elim (Bool-cases (ltb pq 4)) [
  | inl small ↦ absurd (ground arith)
  | inr large ↦ elim (Bool-cases (pq % 2 == 0)) [
    | inl even ↦
        let ep : p ≡ 2 = ground arith in
        let eq : q ≡ pq / 2 = ground arith in
        let le : 4 ≤ pq = ground arith in
        let half : pq % 2 ≡ 0 = ground arith in
        rw (ep, eq) (omega (arith, half), omega arith, omega (arith, le), omega (arith, le))
    | inr odd ↦ try_constants_sound steps 63 1 pq p q (ground arith) (ground arith)
  ]
]

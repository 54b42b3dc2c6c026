-- ===== src/Mtproto/Handshake/Group/Exponent.antt =====
-- The two orders of raising to the secret exponents.
use native.Mathlib.Nat.{add-mul, add-mul-mod_self_right, mul_assoc, mul_comm, pow-suc, pow-zero}
use messaging_app.Prelude.{ap, arith, refl, suc, sym, zero, ℕ, ◌%◌, ◌*◌, ◌+◌, ◌/◌, ◌^◌, ◌∙◌, ◌≡◌}
use messaging_app.Mtproto.Handshake.Group.{dh_prime, exp_mod}
use native.Mathlib.Nat.{mod-add-div' as mod-add-div-mul}

mod_mul : (x y m : ℕ) → x % m * y % m ≡ x * y % m
mod_mul x y m =
    let split : x * y ≡ x % m * y + x / m * y * m =
      ap (λ n. n * y) (sym (mod-add-div-mul x m))
      ∙ add-mul (x % m) (x / m * m) y
      ∙ ap (λ n. x % m * y + n)
          (mul_assoc (x / m) m y
            ∙ ap (λ n. x / m * n) (mul_comm m y)
            ∙ sym (mul_assoc (x / m) y m)) in
    rw split (sym (add-mul-mod_self_right (x % m * y) (x / m * y) m))

mod_mul_right : (x y m : ℕ) → x * (y % m) % m ≡ x * y % m
mod_mul_right x y m =
    ap (λ n. n % m) (mul_comm x (y % m)) ∙ mod_mul y x m ∙ ap (λ n. n % m) (mul_comm y x)

mod_pow : (x e m : ℕ) → (x % m) ^ e % m ≡ x ^ e % m
mod_pow x zero m = rw (pow-zero (x % m), pow-zero x) refl
mod_pow x (suc e) m =
    ap (λ n. n % m) (pow-suc (x % m) e)
    ∙ sym (mod_mul ((x % m) ^ e) (x % m) m)
    ∙ ap (λ n. n * (x % m) % m) (mod_pow x e m)
    ∙ mod_mul (x ^ e) (x % m) m
    ∙ mod_mul_right (x ^ e) x m
    ∙ ap (λ n. n % m) (sym (pow-suc x e))

mul_pow : (x y e : ℕ) → (x * y) ^ e ≡ x ^ e * y ^ e
mul_pow x y zero = rw (pow-zero (x * y), pow-zero x, pow-zero y) refl
mul_pow x y (suc e) =
    rw (pow-suc (x * y) e, pow-suc x e, pow-suc y e, mul_pow x y e)
      (mul_assoc (x ^ e) (y ^ e) (x * y)
        ∙ ap (λ n. x ^ e * n)
            (sym (mul_assoc (y ^ e) x y)
              ∙ ap (λ n. n * y) (mul_comm (y ^ e) x)
              ∙ mul_assoc x (y ^ e) y)
        ∙ sym (mul_assoc (x ^ e) x (y ^ e * y)))

one_pow : (e : ℕ) → 1 ^ e ≡ 1
one_pow zero = rw pow-zero refl
one_pow (suc e) = omega (arith, pow-suc 1 e, one_pow e)

pow_swap : (x b a : ℕ) → (x ^ b) ^ a ≡ (x ^ a) ^ b
pow_swap x zero a = rw (pow-zero x, pow-zero (x ^ a)) (one_pow a)
pow_swap x (suc b) a =
    ap (λ n. n ^ a) (pow-suc x b)
    ∙ mul_pow (x ^ b) x a
    ∙ ap (λ n. n * x ^ a) (pow_swap x b a)
    ∙ sym (pow-suc (x ^ a) b)

-- Either side's power of the other's public value is the same number.
pub exp_mod_swap : (g a b : ℕ) → exp_mod (exp_mod g b) a ≡ exp_mod (exp_mod g a) b
exp_mod_swap g a b =
    mod_pow (g ^ b) a dh_prime
    ∙ ap (λ n. n % dh_prime) (pow_swap g b a)
    ∙ sym (mod_pow (g ^ a) b dh_prime)

-- ===== src/Prelude/Bits.antt =====
-- Exclusive or of integers of `w` bits.
use native.Mathlib.Nat.{pow-suc}
use messaging_app.Prelude.{arith, suc, zero, ℕ, ◌%◌, ◌*◌, ◌+◌, ◌/◌, ◌<◌, ◌^◌, ◌≡◌}

unfoldable pub xor_bits : ℕ → ℕ → ℕ → ℕ
xor_bits zero a b = 0
xor_bits (suc w) a b = (a % 2 + b % 2) % 2 + 2 * xor_bits w (a / 2) (b / 2)

pub xor_bits-lt : (w a b : ℕ) → xor_bits w a b < 2 ^ w
unfolding xor_bits
xor_bits-lt zero a b = omega arith
xor_bits-lt (suc w) a b = omega (arith, xor_bits-lt w (a / 2) (b / 2), pow-suc 2 w)

pub xor_bits_cancel : (w a b : ℕ) → a < 2 ^ w → xor_bits w (xor_bits w a b) b ≡ a
unfolding xor_bits
xor_bits_cancel zero a b h = omega arith
xor_bits_cancel (suc w) a b h =
    let r = xor_bits w (a / 2) (b / 2) in
    let half : ((a % 2 + b % 2) % 2 + 2 * r) / 2 ≡ r = omega arith in
    let low : ((a % 2 + b % 2) % 2 + 2 * r) % 2 ≡ (a % 2 + b % 2) % 2 = omega arith in
    let rest = xor_bits_cancel w (a / 2) (b / 2) (omega (arith, pow-suc 2 w)) in
    rw (half, low, rest) (omega arith)

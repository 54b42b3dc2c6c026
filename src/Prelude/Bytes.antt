-- ===== src/Prelude/Bytes.antt =====
-- Bytes as numbers below 256, and the fixed-width integers of Go's encoding/binary.
use Prim.Native.Nat.{suc, zero, ℕ, ◌%◌, ◌*◌, ◌+◌, ◌/◌, ◌<◌, ◌^◌}
use mathlib.Core.List.{List, [], reverse, reverse-reverse, ◌∷◌}
use mathlib.Core.Path.{ap, refl, ◌≡◌}
use native.Mathlib.Nat.{pow-suc}
use native.Mathlib.Omega.{arith}
use messaging_app.Prelude.{
  Bool, drop, false, length, length-reverse, ltb, take, true, ◌&&◌, ◌++◌, ◌==◌,
}

abbrev pub All {ℓ κ} : {A : Type ℓ} → (A → Type κ) → List A → Type κ
All P [] = Unit
All P (x ∷ xs) = P x × All P xs

abbrev pub IsByte : ℕ → Type 0
IsByte b = b < 256

-- `binary.LittleEndian.PutUint16/32/64`: the low `w` bytes of `v`, lowest first.
unfoldable pub put_le : ℕ → ℕ → List ℕ
put_le zero v = []
put_le (suc w) v = (v % 256) ∷ put_le w (v / 256)

-- `binary.LittleEndian.Uint16/32/64`
unfoldable pub get_le : List ℕ → ℕ
get_le [] = 0
get_le (b ∷ bs) = b + 256 * get_le bs

-- `binary.BigEndian`: the same bytes, highest first.
unfoldable pub put_be : ℕ → ℕ → List ℕ
put_be w v = reverse (put_le w v)

unfoldable pub get_be : List ℕ → ℕ
get_be bs = get_le (reverse bs)

-- `b[i:i+n]`
unfoldable pub slice : ℕ → ℕ → List ℕ → List ℕ
slice i n b = take n (drop i b)

pub length-put_le : (w v : ℕ) → length (put_le w v) ≡ w
unfolding put_le
length-put_le zero v = refl
length-put_le (suc w) v = ap suc (length-put_le w (v / 256))

pub get_le-put_le : (w v : ℕ) → v < 256 ^ w → get_le (put_le w v) ≡ v
unfolding put_le get_le
get_le-put_le zero v h = omega arith
get_le-put_le (suc w) v h = omega (arith, get_le-put_le w (v / 256) (omega (arith, pow-suc 256 w)))

pub put_le-IsByte : (w v : ℕ) → All IsByte (put_le w v)
unfolding put_le
put_le-IsByte zero v = tt
put_le-IsByte (suc w) v = (omega arith, put_le-IsByte w (v / 256))

pub length-put_be : (w v : ℕ) → length (put_be w v) ≡ w
unfolding put_be
length-put_be w v = omega (arith, length-reverse (put_le w v), length-put_le w v)

pub get_be-put_be : (w v : ℕ) → v < 256 ^ w → get_be (put_be w v) ≡ v
unfolding put_be get_be
get_be-put_be w v h = rw reverse-reverse (get_le-put_le w v h)

-- Bytes are determined by the number that they stand for.
pub put_le-get_le : (bs : List ℕ) → All IsByte bs → put_le (length bs) (get_le bs) ≡ bs
unfolding put_le get_le
put_le-get_le [] h = refl
put_le-get_le (b ∷ bs) h =
    let low : (b + 256 * get_le bs) % 256 ≡ b = omega arith in
    let high : (b + 256 * get_le bs) / 256 ≡ get_le bs = omega arith in
    rw (low, high) (ap (λ l. b ∷ l) (put_le-get_le bs h.1))

pub get_le-lt : (bs : List ℕ) → All IsByte bs → get_le bs < 256 ^ length bs
unfolding get_le
get_le-lt [] h = omega arith
get_le-lt (b ∷ bs) h = omega (arith, get_le-lt bs h.1, pow-suc 256 (length bs))

pub All-append {ℓ κ} :
    {A : Type ℓ} (P : A → Type κ) (xs ys : List A) → All P xs → All P ys → All P (xs ++ ys)
All-append P [] ys hx hy = hy
All-append P (x ∷ xs) ys hx hy = (hx.0, All-append P xs ys hx.1 hy)

pub All-split {ℓ κ} :
    {A : Type ℓ} (P : A → Type κ) (xs ys : List A) → All P (xs ++ ys) → All P xs × All P ys
All-split P [] ys h = (tt, h)
All-split P (x ∷ xs) ys h = let (hx, hy) = All-split P xs ys h.1 in ((h.0, hx), hy)

pub All-take {ℓ κ} :
    {A : Type ℓ} (P : A → Type κ) (n : ℕ) (xs : List A) → All P xs → All P (take n xs)
All-take P zero xs h = tt
All-take P (suc n) [] h = tt
All-take P (suc n) (x ∷ xs) h = (h.0, All-take P n xs h.1)

pub All-drop {ℓ κ} :
    {A : Type ℓ} (P : A → Type κ) (n : ℕ) (xs : List A) → All P xs → All P (drop n xs)
All-drop P zero xs h = h
All-drop P (suc n) [] h = tt
All-drop P (suc n) (x ∷ xs) h = All-drop P n xs h.1

pub put_le_of_bytes :
    (w : ℕ) (bs : List ℕ) (n : ℕ) → All IsByte bs → length bs ≡ w → get_le bs ≡ n → put_le w n ≡ bs
put_le_of_bytes w bs n h l e = rw (← l, ← e) (put_le-get_le bs h)

-- `subtle.ConstantTimeCompare(a, b) == 1`, and `==` of Go's byte arrays.
unfoldable pub bytes_eq : List ℕ → List ℕ → Bool
bytes_eq [] [] = true
bytes_eq [] (b ∷ ys) = false
bytes_eq (a ∷ xs) [] = false
bytes_eq (a ∷ xs) (b ∷ ys) = a == b && bytes_eq xs ys

pub bytes_eq_sound : (xs ys : List ℕ) → bytes_eq xs ys ≡ true → xs ≡ ys
unfolding bytes_eq
bytes_eq_sound [] [] h = refl
bytes_eq_sound [] (b ∷ ys) h = cc
bytes_eq_sound (a ∷ xs) [] h = cc
bytes_eq_sound (a ∷ xs) (b ∷ ys) h = ground (arith, bytes_eq_sound xs ys)

pub bytes_eq_refl : (xs : List ℕ) → bytes_eq xs xs ≡ true
unfolding bytes_eq
bytes_eq_refl [] = refl
bytes_eq_refl (x ∷ xs) = ground (arith, bytes_eq_refl xs)

-- A test of whether all numbers of a list are bytes.
abbrev pub all_bytes : List ℕ → Bool
all_bytes [] = true
all_bytes (b ∷ bs) = ltb b 256 && all_bytes bs

pub all_bytes_sound : (bs : List ℕ) → all_bytes bs ≡ true → All IsByte bs
all_bytes_sound [] h = tt
all_bytes_sound (b ∷ bs) h =
    let low : b < 256 = ground arith in (low, all_bytes_sound bs (ground arith))

-- ===== src/Mtproto/Handshake/Group/Bytes.antt =====
-- Integers of the group as bytes: none is lost, and the padding makes their width fixed.
use mathlib.Core.List.{reverse-append, reverse-cons, reverse-reverse}
use native.Mathlib.Nat.{pow-suc}
use messaging_app.Prelude.{
  ==_iff, Bool-cases, List, [], ap, arith, inl, inr, leb, length, length-reverse, refl, replicate,
  reverse, suc, sym, zero, ℕ, ◌%◌, ◌++◌, ◌-◌, ◌/◌, ◌<◌, ◌==◌, ◌^◌, ◌∙◌, ◌∷◌, ◌≡◌, ◌≤◌,
}
use messaging_app.Mtproto.Handshake.Group.{big_bytes, digits, left_pad}
use messaging_app.Prelude.Bytes.{get_be, get_le, length-put_be, put_be, put_le}

get_le-digits : (w v : ℕ) → v < 256 ^ w → get_le (digits w v) ≡ v
unfolding digits get_le
get_le-digits zero v h = omega (arith, h)
get_le-digits (suc w) v h =
    let rest = get_le-digits w (v / 256) (omega (arith, h, pow-suc 256 w)) in
    elim (Bool-cases (v == 0)) [
      | inl none_left ↦ rw none_left (ground arith)
      | inr more ↦ rw more (omega (arith, rest))
    ]

length-digits : (w v : ℕ) → length (digits w v) ≤ w
unfolding digits
length-digits zero v = omega arith
length-digits (suc w) v = elim (Bool-cases (v == 0)) [
  | inl none_left ↦ rw none_left (omega arith)
  | inr more ↦ rw more (omega (arith, length-digits w (v / 256)))
]

put_le_zeros : (w : ℕ) → put_le w 0 ≡ replicate w 0
unfolding put_le
put_le_zeros zero = refl
put_le_zeros (suc w) = ap (λ l. 0 ∷ l) (put_le_zeros w)

digits-put_le : (w v : ℕ) → digits w v ++ replicate (w - length (digits w v)) 0 ≡ put_le w v
unfolding digits put_le
digits-put_le zero v = refl
digits-put_le (suc w) v = elim (Bool-cases (v == 0)) [
  | inl none_left ↦
      let is_zero : v ≡ 0 = (==_iff v 0).0 none_left in
      let whole : suc w - 0 ≡ suc w = omega arith in
      rw (is_zero, whole) (ap (λ l. 0 ∷ l) (sym (put_le_zeros w)))
  | inr more ↦
      let one_less : suc w - suc (length (digits w (v / 256))) ≡ w - length (digits w (v / 256)) =
        omega arith in
      rw (more, one_less) (ap (λ l. v % 256 ∷ l) (digits-put_le w (v / 256)))
]

replicate_snoc : (n a : ℕ) → replicate n a ++ (a ∷ []) ≡ replicate (suc n) a
replicate_snoc zero a = refl
replicate_snoc (suc n) a = ap (λ l. a ∷ l) (replicate_snoc n a)

reverse-replicate : (n a : ℕ) → reverse (replicate n a) ≡ replicate n a
reverse-replicate zero a = refl
reverse-replicate (suc n) a =
    reverse-cons a (replicate n a)
    ∙ ap (λ l. l ++ (a ∷ [])) (reverse-replicate n a)
    ∙ replicate_snoc n a

-- SetBytes reads back what Bytes writes of a number of at most 256 bytes.
pub get_be-big_bytes : (v : ℕ) → v < 256 ^ 256 → get_be (big_bytes v) ≡ v
unfolding get_be big_bytes
get_be-big_bytes v h = rw reverse-reverse (get_le-digits 256 v h)

pad_of_length :
    (w : ℕ) (xs : List ℕ) → length xs ≤ w → left_pad xs w ≡ replicate (w - length xs) 0 ++ xs
unfolding left_pad
pad_of_length w xs h = elim (Bool-cases (leb w (length xs))) [
  | inl long ↦
      let same : length xs ≡ w = ground arith in
      let none_over : length xs - w ≡ 0 = omega (arith, same) in
      let none_short : w - length xs ≡ 0 = omega (arith, same) in
      rw (long, none_over, none_short) refl
  | inr short ↦ rw short refl
]

-- The auth key's bytes are the shared secret as a big-endian number of 256 bytes, with its leading
-- zeros.
pub left_pad-big_bytes : (v : ℕ) → left_pad (big_bytes v) 256 ≡ put_be 256 v
unfolding big_bytes put_be
left_pad-big_bytes v =
    let bs = digits 256 v in
    let size : length (reverse bs) ≡ length bs = length-reverse bs in
    pad_of_length 256 (reverse bs) (omega (arith, size, length-digits 256 v))
    ∙ ap (λ n. replicate (256 - n) 0 ++ reverse bs) size
    ∙ ap (λ l. l ++ reverse bs) (sym (reverse-replicate (256 - length bs) 0))
    ∙ sym (reverse-append bs (replicate (256 - length bs) 0))
    ∙ ap reverse (digits-put_le 256 v)

pub length-left_pad : (v : ℕ) → length (left_pad (big_bytes v) 256) ≡ 256
length-left_pad v = rw left_pad-big_bytes (length-put_be 256 v)

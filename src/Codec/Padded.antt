-- ===== src/Codec/Padded.antt =====
-- `PaddedIntermediate` of pkg/mtproto/codec/codec.go: random padding whose last byte is its length.
use native.Mathlib.Nat.{suc-add, zero-add}
use messaging_app.Prelude.{
  Bool-cases, List, Result, [], append_assoc, arith, get_or, inl, inr, length, length-append,
  length-set, ltb, ok, refl, refuse, set, suc, take, take-append, zero, ℕ, ◌++◌, ◌+◌, ◌-◌, ◌<◌,
  ◌==◌, ◌>>=◌, ◌>>◌, ◌||◌, ◌∙◌, ◌∷◌, ◌≡◌, ◌≤◌,
}
use messaging_app.Codec.{
  Error, Read, bad_padding, frame_too_large, max_frame_size, read_full, read_full-append,
}
use messaging_app.Prelude.Bytes.{get_le, get_le-put_le, length-put_le, put_le}

-- `maxIntermediatePad`
abbrev pub max_intermediate_pad : ℕ
max_intermediate_pad = 16

-- `(*PaddedIntermediate).ReadFrame`
unfoldable pub read_frame : List ℕ → Read (List ℕ)
read_frame s = do
  (head, s1) ← read_full 4 s
  let n = get_le head
  refuse (n == 0 || ltb max_frame_size n) frame_too_large
  (buf, s2) ← read_full n s1
  let pad = get_or buf (length buf - 1) 0
  refuse (ltb pad 1 || ltb max_intermediate_pad pad || ltb (length buf) pad) bad_padding
  ok (take (length buf - pad) buf, s2)

-- The padding that `WriteFrame` makes of the random bytes it drew: the last one holds their number.
unfoldable pub padding : List ℕ → List ℕ
padding noise = set noise (length noise - 1) (length noise)

-- `(*PaddedIntermediate).WriteFrame`; `noise` is the 1 to 16 random bytes that it draws.
unfoldable pub write_frame : List ℕ → List ℕ → Result Error (List ℕ)
write_frame noise payload = do
  let total = length payload + length noise
  refuse (ltb max_frame_size total) frame_too_large
  ok (put_le 4 total ++ (payload ++ padding noise))

get_or-append : (xs ys : List ℕ) (i d : ℕ) → get_or (xs ++ ys) (length xs + i) d ≡ get_or ys i d
get_or-append [] ys i d = rw zero-add
get_or-append (x ∷ xs) ys i d = rw suc-add (get_or-append xs ys i d)

get_or-set_self : (xs : List ℕ) (i v d : ℕ) → i < length xs → get_or (set xs i v) i d ≡ v
get_or-set_self [] i v d h = elim h [ ]
get_or-set_self (x ∷ xs) zero v d h = refl
get_or-set_self (x ∷ xs) (suc i) v d h = get_or-set_self xs i v d (omega arith)

length-padding : (noise : List ℕ) → length (padding noise) ≡ length noise
unfolding padding
length-padding noise = length-set noise (length noise - 1) (length noise)

-- The last byte of a padded buffer is the number of bytes that were drawn.
last-padded :
    (p noise : List ℕ)
    → 0 < length noise
    → get_or (p ++ padding noise) (length (p ++ padding noise) - 1) 0 ≡ length noise
unfolding padding
last-padded p noise h =
    let end : length (p ++ padding noise) - 1 ≡ length p + (length noise - 1) =
      omega (arith, length-append p (padding noise), length-padding noise) in
    rw end (
      get_or-append p (padding noise) (length noise - 1) 0
      ∙ get_or-set_self noise _ _ 0 (omega arith))

length-padded : (p noise : List ℕ) → length (p ++ padding noise) ≡ length p + length noise
length-padded p noise = omega (arith, length-append p (padding noise), length-padding noise)

take-padded :
    (p noise : List ℕ) → take (length (p ++ padding noise) - length noise) (p ++ padding noise) ≡ p
take-padded p noise = take-append _ p (padding noise) (omega (arith, length-padded p noise))

parse :
    (n : ℕ) (p noise rest : List ℕ)
    → length p + length noise ≡ n
    → 0 < length noise
    → length noise ≤ max_intermediate_pad
    → n ≤ max_frame_size
    → read_frame (put_le 4 n ++ ((p ++ padding noise) ++ rest)) ≡ ok (p, rest)
unfolding read_frame
parse n p noise rest e h k fits =
    rw
      (
        read_full-append 4 (put_le 4 n) ((p ++ padding noise) ++ rest) (length-put_le 4 n),
        get_le-put_le 4 n (omega arith),
        read_full-append n (p ++ padding noise) rest (length-padded p noise ∙ e),
        last-padded p noise h,
        take-padded p noise,
      )
      (ground (arith, length-padded p noise))

-- The reader takes the padding off again, for an empty payload too, and leaves what follows.
pub read_written :
    (noise p rest w : List ℕ)
    → 0 < length noise
    → length noise ≤ max_intermediate_pad
    → write_frame noise p ≡ ok w
    → read_frame (w ++ rest) ≡ ok (p, rest)
unfolding write_frame
read_written noise p rest w h k e =
    elim (Bool-cases (ltb max_frame_size (length p + length noise))) [
      | inl big ↦ ground arith
      | inr fits ↦
          let e' : w ≡ put_le 4 (length p + length noise) ++ (p ++ padding noise) = ground arith in
          rw (e', append_assoc) (parse _ p noise rest refl h k (ground arith))
    ]

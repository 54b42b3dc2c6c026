-- ===== src/Codec.antt =====
-- pkg/mtproto/codec/codec.go: the transport framings. A connection's unread input is the list of
-- the bytes that are still to come; a read returns what it took and the bytes after it.
pub mod Abridged
pub mod Intermediate
pub mod Padded
pub mod Full
pub mod Detect
pub mod Stream
pub mod Obfuscated
mod Tests
use messaging_app.Prelude.{
  Bool-cases, List, Result, [], arith, drop, drop-append, err, if◌then◌else◌, inl, inr, leb, length,
  length-append, length-take, ok, refl, take, take-append, take-append-drop, ℕ, ◌*◌, ◌++◌, ◌==◌,
  ◌^◌, ◌∷◌, ◌≡◌, ◌⊎◌,
}

-- `MaxFrameSize`: 16 << 20.
abbrev pub max_frame_size : ℕ
max_frame_size = 16 * 2 ^ 20

-- The package's errors, the two that a short read gives, and the unnamed one of a bad padding.
pub data Error : Type 0 where
  eof unexpected_eof frame_too_large bad_crc bad_seq_no unknown_magic quick_ack bad_padding : Error
  not_obfuscated no_init_packet not_obfuscable no_randomness : Error

-- What a read of the input returns: a value and the bytes after it.
abbrev pub Read : Type 0 → Type 0
Read A = Result Error (A × List ℕ)

-- `io.ReadFull` of a buffer of `n` bytes, `n` not 0.
unfoldable pub read_full : ℕ → List ℕ → Read (List ℕ)
read_full n s =
    if leb n (length s)
    then ok (take n s, drop n s)
    else err (if length s == 0 then eof else unexpected_eof)

-- `bufio.Reader.ReadByte`
unfoldable pub read_byte : List ℕ → Read ℕ
read_byte [] = err eof
read_byte (b ∷ s) = ok (b, s)

-- A read of `n` bytes takes the first part of an input that begins with `n` known bytes.
pub read_full-append :
    (n : ℕ) (xs rest : List ℕ) → length xs ≡ n → read_full n (xs ++ rest) ≡ ok (xs, rest)
unfolding read_full
read_full-append n xs rest h =
    rw (take-append n xs rest h, drop-append n xs rest h) (ground (arith, length-append xs rest))

-- A read that succeeds splits the input after `n` bytes.
pub read_full_splits :
    (n : ℕ) (s xs rest : List ℕ)
    → read_full n s ≡ ok (xs, rest)
    → (s ≡ xs ++ rest) × (length xs ≡ n)
unfolding read_full
read_full_splits n s xs rest e = elim (Bool-cases (leb n (length s))) [
  | inl enough ↦
      let split : take n s ++ drop n s ≡ s = take-append-drop n s in
      let e1 : take n s ≡ xs = ground arith in
      let e2 : drop n s ≡ rest = ground arith in (cc, rw (← e1) (ground (arith, length-take n s)))
  | inr short ↦ ground arith
]

-- A split on a read that keeps the equation.
pub Read-cases :
    {A : Type 0} (m : Read A)
    → ((e : Error) × (m ≡ err e)) ⊎ ((a : A) × (s : List ℕ) × (m ≡ ok (a, s)))
Read-cases (err e) = inl (e, refl)
Read-cases (ok (a, s)) = inr (a, s, refl)

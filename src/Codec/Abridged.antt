-- ===== src/Codec/Abridged.antt =====
-- `Abridged` of pkg/mtproto/codec/codec.go: the length in 4-byte words, in one byte or in four.
use messaging_app.Prelude.{
  Bool-cases, List, Result, [], append_assoc, arith, bit_set, if◌then◌else◌, inl, inr, length,
  length-append, length-replicate, ltb, ltb→lt, ok, refuse, replicate, ℕ, ◌%◌, ◌*◌, ◌++◌, ◌+◌, ◌-◌,
  ◌/◌, ◌<◌, ◌==◌, ◌>>=◌, ◌>>◌, ◌||◌, ◌∷◌, ◌≡◌, ◌≤◌,
}
use messaging_app.Codec.{
  Error, Read, frame_too_large, max_frame_size, quick_ack, read_byte, read_full, read_full-append,
}
use messaging_app.Prelude.Bytes.{get_le, get_le-put_le, length-put_le, put_le}

-- The word count: the first byte itself, or the 3-byte little-endian number after 0x7f.
unfoldable pub read_words : ℕ → List ℕ → Read ℕ
read_words b s =
    if ltb b 0x7f then ok (b, s) else (do (ext, s1) ← read_full 3 s; ok (get_le ext, s1))

-- `(*Abridged).ReadFrame`
unfoldable pub read_frame : List ℕ → Read (List ℕ)
read_frame s = do
  (b, s1) ← read_byte s
  refuse (bit_set b 7) quick_ack
  (words, s2) ← read_words b s1
  let n = words * 4
  refuse (n == 0 || ltb max_frame_size n) frame_too_large
  read_full n s2

-- `PadTo4`, which `WriteFrame` does itself too.
unfoldable pub pad_to_4 : List ℕ → List ℕ
pad_to_4 b = let r = length b % 4 in if r == 0 then b else b ++ replicate (4 - r) 0

-- The header that `WriteFrame` builds for a number of words.
unfoldable pub header : ℕ → List ℕ
header words = if ltb words 0x7f then words ∷ [] else 0x7f ∷ put_le 3 words

-- `(*Abridged).WriteFrame`
unfoldable pub write_frame : List ℕ → Result Error (List ℕ)
write_frame payload = do
  refuse (ltb max_frame_size (length payload)) frame_too_large
  let padded = pad_to_4 payload
  ok (header (length padded / 4) ++ padded)

-- Padding ends at the next multiple of 4.
pub length-pad_to_4 :
    (p : List ℕ)
    → (length (pad_to_4 p) % 4 ≡ 0)
      × (length p ≤ length (pad_to_4 p))
      × (length (pad_to_4 p) ≤ length p + 3)
unfolding pad_to_4
length-pad_to_4 p = ground (
  arith,
  length-append p (replicate (4 - length p % 4) 0),
  length-replicate {A = ℕ} (4 - length p % 4) 0,
)

short_header :
    (words : ℕ) (q rest : List ℕ)
    → 0 < words
    → words < 0x7f
    → length q ≡ words * 4
    → read_frame (words ∷ (q ++ rest)) ≡ ok (q, rest)
unfolding read_frame read_words read_byte
short_header words q rest pos short l = ground (arith, read_full-append (words * 4) q rest l)

long_header :
    (words : ℕ) (q rest : List ℕ)
    → 0x7f ≤ words
    → words * 4 ≤ max_frame_size
    → length q ≡ words * 4
    → read_frame (0x7f ∷ (put_le 3 words ++ (q ++ rest))) ≡ ok (q, rest)
unfolding read_frame read_words read_byte
long_header words q rest long fits l =
    rw
      (
        read_full-append 3 (put_le 3 words) (q ++ rest) (length-put_le 3 words),
        get_le-put_le 3 words (omega arith),
      )
      (ground (arith, read_full-append (words * 4) q rest l))

-- The reader takes back any number of whole words behind the header for it.
read_header :
    (words : ℕ) (q rest : List ℕ)
    → 0 < words
    → words * 4 ≤ max_frame_size
    → length q ≡ words * 4
    → read_frame (header words ++ (q ++ rest)) ≡ ok (q, rest)
unfolding header
read_header words q rest pos fits l = elim (Bool-cases (ltb words 0x7f)) [
  | inl short ↦ rw short (short_header words q rest pos (ltb→lt _ _ short) l)
  | inr long ↦ rw long (long_header words q rest (ground arith) fits l)
]

-- The reader takes back a written payload, padded to whole words, and leaves what follows it.
pub read_written :
    (p rest w : List ℕ)
    → 0 < length p
    → write_frame p ≡ ok w
    → read_frame (w ++ rest) ≡ ok (pad_to_4 p, rest)
unfolding write_frame
read_written p rest w h e = elim (Bool-cases (ltb max_frame_size (length p))) [
  | inl big ↦ ground arith
  | inr fits ↦
      let e' : w ≡ header (length (pad_to_4 p) / 4) ++ pad_to_4 p = ground arith in
      let fits' : length p ≤ max_frame_size = ground arith in
      rw (e', append_assoc)
        (read_header (length (pad_to_4 p) / 4) (pad_to_4 p) rest (omega (arith, length-pad_to_4 p))
          (omega (arith, length-pad_to_4 p)) (omega (arith, length-pad_to_4 p)))
]

-- ===== src/Codec/Intermediate.antt =====
-- `Intermediate` of pkg/mtproto/codec/codec.go: a 4-byte little-endian length, then the payload.
use messaging_app.Prelude.{
  Bool-cases, List, Result, append_assoc, arith, bit_set, inl, inr, length, ltb, ok, refl, refuse,
  ℕ, ◌++◌, ◌<◌, ◌==◌, ◌>>=◌, ◌>>◌, ◌||◌, ◌≡◌, ◌≤◌,
}
use messaging_app.Codec.{
  Error, Read, frame_too_large, max_frame_size, quick_ack, read_full, read_full-append,
}
use messaging_app.Prelude.Bytes.{get_le, get_le-put_le, length-put_le, put_le}

-- `(*Intermediate).ReadFrame`
unfoldable pub read_frame : List ℕ → Read (List ℕ)
read_frame s = do
  (head, s1) ← read_full 4 s
  let n = get_le head
  refuse (bit_set n 31) quick_ack
  refuse (n == 0 || ltb max_frame_size n) frame_too_large
  read_full n s1

-- `(*Intermediate).WriteFrame`: the bytes written.
unfoldable pub write_frame : List ℕ → Result Error (List ℕ)
write_frame payload = do
  refuse (ltb max_frame_size (length payload)) frame_too_large
  ok (put_le 4 (length payload) ++ payload)

parse :
    (p rest : List ℕ)
    → 0 < length p
    → length p ≤ max_frame_size
    → read_frame (put_le 4 (length p) ++ (p ++ rest)) ≡ ok (p, rest)
unfolding read_frame
parse p rest h k =
    rw
      (
        read_full-append 4 (put_le 4 (length p)) (p ++ rest) (length-put_le 4 (length p)),
        get_le-put_le 4 (length p) (omega arith),
      )
      (ground (arith, read_full-append (length p) p rest refl))

-- The reader takes back a written payload that is not empty, and leaves what follows it.
pub read_written :
    (p rest w : List ℕ)
    → 0 < length p
    → write_frame p ≡ ok w
    → read_frame (w ++ rest) ≡ ok (p, rest)
unfolding write_frame
read_written p rest w h e = elim (Bool-cases (ltb max_frame_size (length p))) [
  | inl big ↦ ground arith
  | inr fits ↦
      let e' : w ≡ put_le 4 (length p) ++ p = ground arith in
      rw (e', append_assoc) (parse p rest h (ground arith))
]

-- ===== src/Codec/Full/RoundTrip.antt =====
-- Full frames are read back by a reader that expects the writer's number.
use messaging_app.Prelude.{
  Bool-cases, List, append_assoc, arith, drop, drop-append, inl, inr, length, length-append, ltb,
  ok, take, take-append, ℕ, ◌%◌, ◌++◌, ◌+◌, ◌-◌, ◌<◌, ◌^◌, ◌≡◌, ◌≤◌,
}
use messaging_app.Codec.{max_frame_size, read_full-append}
use messaging_app.Codec.Full.{Full, frame, read_frame, write_frame}
use messaging_app.Prelude.Bytes.{get_le, get_le-put_le, length-put_le, put_le}

-- The first eight bytes of a frame.
head : ℕ → List ℕ → List ℕ
head seq payload = put_le 4 (length payload + 12) ++ put_le 4 seq

length-head : (seq : ℕ) (p : List ℕ) → length (head seq p) ≡ 8
unfolding head
length-head seq p = omega (
  arith,
  length-append (put_le 4 (length p + 12)) (put_le 4 seq),
  length-put_le 4 (length p + 12),
  length-put_le 4 seq,
)

total-head :
    (seq : ℕ) (p : List ℕ)
    → length p + 12 ≤ max_frame_size
    → get_le (take 4 (head seq p)) ≡ length p + 12
unfolding head
total-head seq p h =
    rw (take-append 4 (put_le 4 (length p + 12)) (put_le 4 seq) (length-put_le 4 _))
      (get_le-put_le 4 _ (omega arith))

seq-head : (seq : ℕ) (p : List ℕ) → seq < 2 ^ 32 → get_le (drop 4 (head seq p)) ≡ seq
unfolding head
seq-head seq p h =
    rw (drop-append 4 (put_le 4 (length p + 12)) (put_le 4 seq) (length-put_le 4 _))
      (get_le-put_le 4 seq h)

module _ (crc32 : List ℕ → ℕ) (crc_bound : (bs : List ℕ) → crc32 bs < 2 ^ 32) where
  frame-parts :
      (seq : ℕ) (p rest : List ℕ)
      → frame crc32 seq p ++ rest
        ≡ head seq p ++ (p ++ (put_le 4 (crc32 (head seq p ++ p)) ++ rest))
  unfolding frame head
  frame-parts seq p rest = simp append_assoc

  parse :
      (c : Full) (p rest : List ℕ)
      → c.recv_seq < 2 ^ 32
      → length p + 12 ≤ max_frame_size
      → read_frame crc32 c
          (head c.recv_seq p ++ (p ++ (put_le 4 (crc32 (head c.recv_seq p ++ p)) ++ rest)))
        ≡ ok (p, rest, record c { recv_seq = (c.recv_seq + 1) % 2 ^ 32 })
  unfolding read_frame
  parse c p rest small fits =
      let crc = crc32 (head c.recv_seq p ++ p) in
      rw
        (
          read_full-append 8 (head c.recv_seq p) (p ++ (put_le 4 crc ++ rest))
              (length-head c.recv_seq p),
          total-head c.recv_seq p fits,
          seq-head c.recv_seq p small,
          read_full-append (length p + 12 - 12) p (put_le 4 crc ++ rest) (omega arith),
          read_full-append 4 (put_le 4 crc) rest (length-put_le 4 crc),
          get_le-put_le 4 crc (crc_bound _),
        )
        (ground arith)

  -- A reader whose number is the writer's takes the payload back, and both numbers move on.
  pub read_written :
      (r w w' : Full) (p rest bytes : List ℕ)
      → r.recv_seq ≡ w.send_seq
      → w.send_seq < 2 ^ 32
      → write_frame crc32 w p ≡ ok (bytes, w')
      → read_frame crc32 r (bytes ++ rest) ≡ ok (p, rest, record r { recv_seq = w'.send_seq })
  unfolding write_frame
  read_written r w w' p rest bytes same small e =
      elim (Bool-cases (ltb max_frame_size (length p + 12))) [
        | inl big ↦ ground arith
        | inr fits ↦
            let e1 : bytes ≡ frame crc32 r.recv_seq p = ground arith in
            let e2 : w'.send_seq ≡ (r.recv_seq + 1) % 2 ^ 32 = ground arith in
            rw (e1, e2, frame-parts r.recv_seq p rest) (parse r p rest (omega arith) (ground arith))
      ]

-- ===== src/Codec/Full/Sound.antt =====
-- What the full framing accepts: only frames that a writer at the expected number makes.
use messaging_app.Prelude.{
  List, append_assoc, arith, drop, inl, inr, length, length-drop, length-take, ok, subst, sym, take,
  take-append-drop, ℕ, ◌%◌, ◌++◌, ◌+◌, ◌-◌, ◌^◌, ◌≡◌, ◌≤◌,
}
use messaging_app.Codec.{Read-cases, max_frame_size, read_full, read_full_splits}
use messaging_app.Codec.Full.{Full, frame, read_frame}
use messaging_app.Prelude.Bytes.{
  All, All-drop, All-split, All-take, IsByte, get_le, put_le, put_le_of_bytes,
}

-- Eight header bytes that hold a length and a number are the header of that length and number.
header_bytes :
    (h : List ℕ) (total seq : ℕ)
    → All IsByte h
    → length h ≡ 8
    → get_le (take 4 h) ≡ total
    → get_le (drop 4 h) ≡ seq
    → put_le 4 total ++ put_le 4 seq ≡ h
header_bytes h total seq bytes l t q =
    rw
      (
        put_le_of_bytes 4 (take 4 h) total (All-take IsByte 4 h bytes)
            (omega (arith, length-take 4 h)) t,
        put_le_of_bytes 4 (drop 4 h) seq (All-drop IsByte 4 h bytes)
            (omega (arith, length-drop 4 h)) q,
      )
      (take-append-drop 4 h)

module _ (crc32 : List ℕ → ℕ) (c : Full) (s : List ℕ) where
  -- The reads and the checks behind an accepted frame.
  record Accepted (p rest : List ℕ) (c' : Full) : Type 0 where
    h : List ℕ
    s1 : List ℕ
    s2 : List ℕ
    check : List ℕ
    read_header : read_full 8 s ≡ ok (h, s1)
    bounded : (12 ≤ get_le (take 4 h)) × (get_le (take 4 h) ≤ max_frame_size)
    in_order : get_le (drop 4 h) ≡ c.recv_seq
    read_body : read_full (get_le (take 4 h) - 12) s1 ≡ ok (p, s2)
    read_check : read_full 4 s2 ≡ ok (check, rest)
    intact : crc32 (h ++ p) ≡ get_le check
    counted : c' ≡ record c { recv_seq = (c.recv_seq + 1) % 2 ^ 32 }

  module _ (h s1 : List ℕ) (e1 : read_full 8 s ≡ ok (h, s1)) where
    module _ (b s2 : List ℕ) (e2 : read_full (get_le (take 4 h) - 12) s1 ≡ ok (b, s2)) where
      Accepted-checked :
          (k s3 p rest : List ℕ) (c' : Full)
          → read_full 4 s2 ≡ ok (k, s3)
          → read_frame crc32 c s ≡ ok (p, rest, c')
          → Accepted p rest c'
      unfolding read_frame
      Accepted-checked k s3 p rest c' e3 e = record {
        h = h;
        s1 = s1;
        s2 = s2;
        check = k;
        read_header = e1;
        bounded = ground arith;
        in_order = ground arith;
        read_body = ground arith;
        read_check = ground arith;
        intact = ground arith;
        counted = ground arith;
      }

  accepted :
      (p rest : List ℕ) (c' : Full) → read_frame crc32 c s ≡ ok (p, rest, c') → Accepted p rest c'
  accepted p rest c' e = elim (Read-cases (read_full 8 s)) [
    | inl (x, e1) ↦ unfold read_frame in ground arith
    | inr (h, s1, e1) ↦ elim (Read-cases (read_full (get_le (take 4 h) - 12) s1)) [
      | inl (x, e2) ↦ unfold read_frame in ground arith
      | inr (b, s2, e2) ↦ elim (Read-cases (read_full 4 s2)) [
        | inl (x, e3) ↦ unfold read_frame in ground arith
        | inr (k, s3, e3) ↦ Accepted-checked h s1 e1 b s2 e2 k s3 p rest c' e3 e
      ]
    ]
  ]

module _ (crc32 : List ℕ → ℕ) where
  rebuilt :
      (c c' : Full) (s p rest : List ℕ)
      → All IsByte s
      → Accepted crc32 c s p rest c'
      → s ≡ frame crc32 c.recv_seq p ++ rest
  unfolding frame
  rebuilt c c' s p rest bytes a =
      let (split1, l1) = read_full_splits 8 s a.h a.s1 a.read_header in
      let (split2, l2) = read_full_splits _ a.s1 p a.s2 a.read_body in
      let (split3, l3) = read_full_splits 4 a.s2 a.check rest a.read_check in
      let (bytes_h, bytes1) = All-split IsByte a.h a.s1 (subst (All IsByte) split1 bytes) in
      let (bytes_p, bytes2) = All-split IsByte p a.s2 (subst (All IsByte) split2 bytes1) in
      let (bytes_k, bytes3) = All-split IsByte a.check rest (subst (All IsByte) split3 bytes2) in
      let head : put_le 4 (length p + 12) ++ put_le 4 c.recv_seq ≡ a.h =
        header_bytes a.h _ _ bytes_h l1 (omega (arith, a.bounded)) a.in_order in
      let covers : put_le 4 (length p + 12) ++ (put_le 4 c.recv_seq ++ p) ≡ a.h ++ p =
        rw (← append_assoc, head) in
      let check : put_le 4 (crc32 (a.h ++ p)) ≡ a.check =
        put_le_of_bytes 4 a.check _ bytes_k l3 (sym a.intact) in
      rw (covers, check, split1, split2, split3) (simp append_assoc)

  -- An input of bytes that the full framing accepts begins with exactly the frame that WriteFrame
  -- makes of the payload returned, at the number expected; the payload is within the limit, and
  -- the number expected next is one more, modulo 2^32.
  pub accepts_only_frames :
      (c c' : Full) (s p rest : List ℕ)
      → All IsByte s
      → read_frame crc32 c s ≡ ok (p, rest, c')
      → (s ≡ frame crc32 c.recv_seq p ++ rest)
        × (length p + 12 ≤ max_frame_size)
        × (c' ≡ record c { recv_seq = (c.recv_seq + 1) % 2 ^ 32 })
  accepts_only_frames c c' s p rest bytes e =
      let a = accepted crc32 c s p rest c' e in
      let (split, l) = read_full_splits _ a.s1 p a.s2 a.read_body in
      (rebuilt c c' s p rest bytes a, omega (arith, a.bounded, l), a.counted)

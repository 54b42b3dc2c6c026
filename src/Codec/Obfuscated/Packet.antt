-- ===== src/Codec/Obfuscated/Packet.antt =====
-- The first packet of a client of pkg/mtproto/codec/obfuscated.go, and what the server makes of it.
use messaging_app.Prelude.{
  List, Result, [], append_assoc, arith, drop, drop-append, length, length-append, ok, refl,
  replicate, take, take-append, true, ℕ, ◌++◌, ◌<◌, ◌^◌, ◌∙◌, ◌∷◌, ◌≡◌,
}
use messaging_app.Codec.{Error, read_full-append}
use messaging_app.Codec.Detect.{Framing, abridged, detect, full, intermediate, padded}
use messaging_app.Codec.Full.{new_full}
use messaging_app.Codec.Obfuscated.{
  Keystream, ObfuscatedConn, accept_obfuscated, all_abridged, backward_stream, dial_obfuscated,
  draw, forward_stream, framing_of, is_disguise, tag_of, xor_from, xor_key_stream,
}
use messaging_app.Codec.Obfuscated.Stream.{length-xor_from, xor_from-append, xor_from_twice}
use messaging_app.Mtproto.{IsBlock}
use messaging_app.Mtproto.Envelope.RoundTrip.{slice_front, slice_prefix, slice_skip}
use messaging_app.Mtproto.Keys.{IsBlock-append}
use messaging_app.Prelude.Bytes.{
  all_bytes_sound, get_le, get_le-put_le, length-put_le, put_le, put_le-IsByte, slice,
}

tag_of-IsBlock : (f : Framing) (tag : List ℕ) → tag_of f ≡ ok tag → IsBlock 4 tag
unfolding tag_of
tag_of-IsBlock abridged tag e =
    let t : replicate 4 0xef ≡ tag = ground arith in
    rw (← t) (record { size = refl; bytes = all_bytes_sound (replicate 4 0xef) refl })
tag_of-IsBlock intermediate tag e =
    let t : put_le 4 0xeeeeeeee ≡ tag = ground arith in
    rw (← t) (record { size = length-put_le 4 _; bytes = put_le-IsByte 4 _ })
tag_of-IsBlock padded tag e =
    let t : put_le 4 0xdddddddd ≡ tag = ground arith in
    rw (← t) (record { size = length-put_le 4 _; bytes = put_le-IsByte 4 _ })
tag_of-IsBlock (full c) tag e = absurd (ground arith)

framing_of-tag_of : (f : Framing) (tag : List ℕ) → tag_of f ≡ ok tag → framing_of tag ≡ ok f
unfolding tag_of framing_of all_abridged put_le get_le
framing_of-tag_of abridged tag e = ground arith
framing_of-tag_of intermediate tag e = ground arith
framing_of-tag_of padded tag e = ground arith
framing_of-tag_of (full c) tag e = absurd (ground arith)

forward_stream-append :
    (bs ys : List ℕ) → length bs ≡ 56 → forward_stream (bs ++ ys) ≡ forward_stream bs
unfolding forward_stream
forward_stream-append bs ys h =
    rw (slice_prefix 8 32 bs ys (omega (arith, h)), slice_prefix 40 16 bs ys (omega (arith, h)))
      refl

backward_stream-append :
    (bs ys : List ℕ) → length bs ≡ 56 → backward_stream (bs ++ ys) ≡ backward_stream bs
unfolding backward_stream
backward_stream-append bs ys h = rw (slice_prefix 8 48 bs ys (omega (arith, h))) refl

-- A packet that passed the tests is not taken for another framing.
detect_disguised :
    (bs s : List ℕ)
    → length bs ≡ 56
    → is_disguise bs ≡ true
    → detect (bs ++ s) ≡ ok (full new_full, bs ++ s)
unfolding detect is_disguise slice get_le
detect_disguised (a ∷ b ∷ c ∷ d ∷ bs) s h good = ground (arith, length-append bs s)
detect_disguised (a ∷ b ∷ c ∷ []) s h good = absurd (omega (arith, h))
detect_disguised (a ∷ b ∷ []) s h good = absurd (omega (arith, h))
detect_disguised (a ∷ []) s h good = absurd (omega (arith, h))
detect_disguised [] s h good = absurd (omega (arith, h))

-- The first packet of a client that drew `bs`, and what the server makes of it.
module _ (ks : Keystream) (bs tag last : List ℕ) (f : Framing) (dc : ℕ) (hb : length bs ≡ 56)
    (ht : tag_of f ≡ ok tag) (hl : IsBlock 2 last) (hd : dc < 2 ^ 16) where
  hidden : List ℕ
  hidden = tag ++ (put_le 2 dc ++ last)

  key : ℕ → ℕ
  key = ks (forward_stream bs).key (forward_stream bs).iv

  pub packet : List ℕ
  packet = bs ++ xor_from key 56 hidden

  hidden-IsBlock : IsBlock 8 hidden
  unfolding hidden
  hidden-IsBlock =
      IsBlock-append 4 4 _ _ (tag_of-IsBlock f tag ht) (
        IsBlock-append 2 2 _ _ (record { size = length-put_le 2 dc; bytes = put_le-IsByte 2 dc })
          hl)

  packet_written : take 56 (bs ++ hidden) ++ drop 56 (xor_from key 0 (bs ++ hidden)) ≡ packet
  unfolding packet
  packet_written =
      rw
        (
          take-append 56 bs hidden hb,
          xor_from-append key 0 bs hidden,
          hb,
          drop-append 56 (xor_from key 0 bs) (xor_from key 56 hidden)
              (length-xor_from key 0 bs ∙ hb),
        )
        refl

  packet_opened : xor_from key 0 packet ≡ xor_from key 0 bs ++ hidden
  unfolding packet
  packet_opened =
      rw
        (
          xor_from-append key 0 bs (xor_from key 56 hidden),
          hb,
          xor_from_twice key 56 hidden hidden-IsBlock.bytes,
        )
        refl

  tag_read : slice 56 4 (xor_from key 0 packet) ≡ tag
  unfolding hidden
  tag_read = rw packet_opened (
      slice_front 56 4 (xor_from key 0 bs) tag (length-xor_from key 0 bs ∙ hb)
        (tag_of-IsBlock f tag ht).size (put_le 2 dc ++ last))

  dc_read : get_le (slice 60 2 (xor_from key 0 packet)) ≡ dc
  unfolding hidden
  dc_read =
      rw
        (
          packet_opened,
          slice_skip 60 4 2 (xor_from key 0 bs) hidden
              (omega (arith, length-xor_from key 0 bs, hb)),
          slice_front 4 2 tag (put_le 2 dc) (tag_of-IsBlock f tag ht).size (length-put_le 2 dc)
              last,
        )
        (get_le-put_le 2 dc (omega (arith, hd)))

  starts : (forward_stream bs).pos ≡ 0
  unfolding forward_stream
  starts = refl

  packet_forward : forward_stream packet ≡ forward_stream bs
  unfolding packet
  packet_forward = forward_stream-append bs (xor_from key 56 hidden) hb

  packet_backward : backward_stream packet ≡ backward_stream bs
  unfolding packet
  packet_backward = backward_stream-append bs (xor_from key 56 hidden) hb

  length-packet : length packet ≡ 64
  unfolding packet
  length-packet = omega (
    arith,
    length-append bs (xor_from key 56 hidden),
    length-xor_from key 56 hidden,
    hidden-IsBlock.size,
    hb,
  )

  -- The connection of the client, and that of the server.
  unfoldable pub client : ObfuscatedConn
  client = record {
    enc = record (forward_stream bs) { pos = 64 };
    dec = backward_stream bs;
    framing = f;
    dc_id = dc;
  }

  unfoldable pub server : ObfuscatedConn
  server = record client { enc = client.dec; dec = client.enc }

  pub dialled :
      (rand : ℕ → Result Error (List ℕ))
      → draw rand 33 0 ≡ ok bs
      → dial_obfuscated ks rand (ok last) f dc ≡ ok (packet, client)
  unfolding dial_obfuscated xor_key_stream client hidden key
  dialled rand drawn =
      let fwd : forward_stream (bs ++ hidden) ≡ forward_stream bs =
        forward_stream-append bs hidden hb in
      let bwd : backward_stream (bs ++ hidden) ≡ backward_stream bs =
        backward_stream-append bs hidden hb in
      let whole : length (bs ++ hidden) ≡ 64 =
        omega (arith, length-append bs hidden, hidden-IsBlock.size, hb) in
      rw (drawn, ht) (rw (fwd, bwd, starts, whole, packet_written) refl)

  pub accepted : (rest : List ℕ) → accept_obfuscated ks (packet ++ rest) ≡ ok (server, rest)
  unfolding accept_obfuscated xor_key_stream client server key
  accepted rest =
      let whole : length packet ≡ 64 = length-packet in
      rw (read_full-append 64 packet rest length-packet) (
        rw (packet_forward, packet_backward, starts, tag_read, framing_of-tag_of f tag ht)
          (rw (dc_read, whole) refl))

  pub disguised :
      is_disguise bs ≡ true
      → (rest : List ℕ) → detect (packet ++ rest) ≡ ok (full new_full, packet ++ rest)
  unfolding packet
  disguised good rest =
      rw append_assoc (detect_disguised bs (xor_from key 56 hidden ++ rest) hb good)

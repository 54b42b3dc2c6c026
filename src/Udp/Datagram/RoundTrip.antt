-- ===== src/Udp/Datagram/RoundTrip.antt =====
-- What `marshal` writes `parseUDP` reads.
use messaging_app.Prelude.{
  List, [], append_assoc, arith, drop, drop-append, drop-skip, err, if◌then◌else◌, leb, length,
  length-append, ltb, ok, refl, take-append, ℕ, ◌%◌, ◌&&◌, ◌++◌, ◌+◌, ◌/◌, ◌<◌, ◌^◌, ◌∷◌, ◌≡◌,
}
use messaging_app.Prelude.Bytes.{
  get_be, get_be-put_be, get_le, length-put_be, put_be, put_le, slice,
}
use messaging_app.Udp.{Header, bad_datagram, max_fragments}
use messaging_app.Udp.Datagram.{fields, marshal, parse_udp}

-- A header whose fields fit their widths, as every Go value does.
pub record FitsWidths (h : Header) : Type 0 where
  pub flags : h.flags < 2 ^ 8
  pub conn_id : h.conn_id < 2 ^ 64
  pub msg_seq : h.msg_seq < 2 ^ 32
  pub frag_index : h.frag_index < 2 ^ 16
  pub frag_count : h.frag_count < 2 ^ 16

-- A field of `w` bytes behind `front`.
field :
    (w v i : ℕ) (b front back : List ℕ)
    → v < 256 ^ w
    → b ≡ front ++ (put_be w v ++ back)
    → length front ≡ i
    → get_be (slice i w b) ≡ v
unfolding slice
field w v i b front back bound e at =
    rw
      (
        e,
        drop-append i front (put_be w v ++ back) at,
        take-append w (put_be w v) back (length-put_be w v),
      )
      (get_be-put_be w v bound)

put_be-mod_16 : (n : ℕ) → put_be 2 (n % 2 ^ 16) ≡ put_be 2 n
unfolding put_be put_le
put_be-mod_16 n =
    let low : n % 65536 % 256 ≡ n % 256 = omega arith in
    let high : n % 65536 / 256 % 256 ≡ n / 256 % 256 = omega arith in rw (low, high)

module _ (h : Header) (p : List ℕ) where
  -- The header bytes before each field.
  to_id : List ℕ
  to_id = put_be 2 0x4D51 ++ (1 ∷ h.flags ∷ [])

  to_seq : List ℕ
  to_seq = to_id ++ put_be 8 h.conn_id

  to_index : List ℕ
  to_index = to_seq ++ put_be 4 h.msg_seq

  to_count : List ℕ
  to_count = to_index ++ put_be 2 h.frag_index

  to_length : List ℕ
  to_length = to_count ++ put_be 2 h.frag_count

  to_payload : List ℕ
  to_payload = to_length ++ (put_be 2 (length p) ++ put_be 2 0)

  length-to_id : length to_id ≡ 4
  unfolding to_id
  length-to_id =
      omega (arith, length-append (put_be 2 0x4D51) (1 ∷ h.flags ∷ []), length-put_be 2 0x4D51)

  length-to_seq : length to_seq ≡ 12
  unfolding to_seq
  length-to_seq =
      omega
        (arith, length-append to_id (put_be 8 h.conn_id), length-put_be 8 h.conn_id, length-to_id)

  length-to_index : length to_index ≡ 16
  unfolding to_index
  length-to_index =
      omega
        (arith, length-append to_seq (put_be 4 h.msg_seq), length-put_be 4 h.msg_seq, length-to_seq)

  length-to_count : length to_count ≡ 18
  unfolding to_count
  length-to_count = omega (
    arith,
    length-append to_index (put_be 2 h.frag_index),
    length-put_be 2 h.frag_index,
    length-to_index,
  )

  length-to_length : length to_length ≡ 20
  unfolding to_length
  length-to_length = omega (
    arith,
    length-append to_count (put_be 2 h.frag_count),
    length-put_be 2 h.frag_count,
    length-to_count,
  )

  length-to_payload : length to_payload ≡ 24
  unfolding to_payload
  length-to_payload = omega (
    arith,
    length-append to_length (put_be 2 (length p) ++ put_be 2 0),
    length-append (put_be 2 (length p)) (put_be 2 0),
    length-put_be 2 (length p),
    length-put_be 2 0,
    length-to_length,
  )

  behind_header : marshal h p ≡ to_payload ++ p
  unfolding marshal to_payload to_length to_count to_index to_seq to_id
  behind_header = simp append_assoc

  pub length-marshal : length (marshal h p) ≡ 24 + length p
  length-marshal = rw behind_header (omega (arith, length-append to_payload p, length-to_payload))

  payload-marshal : drop 24 (marshal h p) ≡ p
  payload-marshal = rw behind_header (drop-append 24 to_payload p length-to_payload)

  -- The bytes after each field.
  abbrev after_length : List ℕ
  after_length = put_be 2 0 ++ p

  abbrev after_count : List ℕ
  after_count = put_be 2 (length p) ++ after_length

  abbrev after_index : List ℕ
  after_index = put_be 2 h.frag_count ++ after_count

  abbrev after_seq : List ℕ
  after_seq = put_be 2 h.frag_index ++ after_index

  abbrev after_id : List ℕ
  after_id = put_be 4 h.msg_seq ++ after_seq

  magic-marshal : get_be (slice 0 2 (marshal h p)) ≡ 0x4D51
  unfolding marshal
  magic-marshal = field 2 0x4D51 0 _ [] _ (omega arith) refl refl

  version-marshal : get_be (slice 2 1 (marshal h p)) ≡ 1
  unfolding marshal slice
  version-marshal =
      rw (drop-append 2 (put_be 2 0x4D51) _ (length-put_be 2 0x4D51))
        (unfold get_be get_le in omega arith)

  flags-marshal : h.flags < 2 ^ 8 → get_be (slice 3 1 (marshal h p)) ≡ h.flags
  unfolding marshal slice
  flags-marshal b =
      rw (drop-skip 3 1 (put_be 2 0x4D51) _ (omega (arith, length-put_be 2 0x4D51)))
        (unfold get_be get_le in omega arith)

  id-marshal : h.conn_id < 2 ^ 64 → get_be (slice 4 8 (marshal h p)) ≡ h.conn_id
  unfolding marshal to_id
  id-marshal b = field 8 h.conn_id 4 _ to_id after_id b (simp append_assoc) length-to_id

  seq-marshal : h.msg_seq < 2 ^ 32 → get_be (slice 12 4 (marshal h p)) ≡ h.msg_seq
  unfolding marshal to_seq to_id
  seq-marshal b = field 4 h.msg_seq 12 _ to_seq after_seq b (simp append_assoc) length-to_seq

  index-marshal : h.frag_index < 2 ^ 16 → get_be (slice 16 2 (marshal h p)) ≡ h.frag_index
  unfolding marshal to_index to_seq to_id
  index-marshal b =
      field 2 h.frag_index 16 _ to_index after_index b (simp append_assoc) length-to_index

  count-marshal : h.frag_count < 2 ^ 16 → get_be (slice 18 2 (marshal h p)) ≡ h.frag_count
  unfolding marshal to_count to_index to_seq to_id
  count-marshal b =
      field 2 h.frag_count 18 _ to_count after_count b (simp append_assoc) length-to_count

  -- The length field keeps the payload's length modulo 2^16.
  length_field-marshal : get_be (slice 20 2 (marshal h p)) ≡ length p % 2 ^ 16
  unfolding marshal to_length to_count to_index to_seq to_id
  length_field-marshal =
      field 2 (length p % 2 ^ 16) 20 _ to_length after_length (omega arith)
        (rw (put_be-mod_16 (length p)) (simp append_assoc)) length-to_length

  -- All header fields of the bytes that `marshal` makes.
  fields-marshal :
      FitsWidths h → fields (marshal h p) ≡ record h { payload_len = length p % 2 ^ 16 }
  unfolding fields
  fields-marshal f = ground (
    arith,
    flags-marshal f.flags,
    id-marshal f.conn_id,
    seq-marshal f.msg_seq,
    index-marshal f.frag_index,
    count-marshal f.frag_count,
    length_field-marshal,
  )

-- What parseUDP makes of any datagram that marshal builds of a header whose fields fit their
-- widths: the header and the payload if the payload length fits 16 bits and the fragment numbers
-- are in range, and a refusal if not.
pub parse_udp-marshal :
    (h : Header) (p : List ℕ)
    → FitsWidths h
    → parse_udp (marshal h p) ≡ (
        if ltb (length p) (2 ^ 16)
          && (ltb 0 h.frag_count
              && (leb h.frag_count max_fragments && ltb h.frag_index h.frag_count))
        then ok (record h { payload_len = length p }, p)
        else err bad_datagram)
unfolding parse_udp
parse_udp-marshal h p f =
    rw
      (
        fields-marshal h p f,
        length-marshal h p,
        magic-marshal h p,
        version-marshal h p,
        payload-marshal h p,
      )
      (ground arith)

-- ===== src/Mtproto/Envelope/RoundTrip.antt =====
-- What is encrypted is decrypted.
use messaging_app.Prelude.{
  List, ap, arith, drop, drop-append, drop-skip, drop_prefix, length, length-append, length-drop,
  ok, refl, take-append, take_all, take_prefix, ℕ, ◌%◌, ◌++◌, ◌+◌, ◌<◌, ◌^◌, ◌∙◌, ◌≡◌, ◌≤◌,
}
use messaging_app.Mtproto.{IsBlock}
use messaging_app.Mtproto.Envelope.{
  Message, envelope_header, header_size, max_message_size, max_padding, min_padding, open_plaintext,
  pad_length,
}
use messaging_app.Mtproto.Keys.{IsBlock-append}
use messaging_app.Prelude.Bytes.{
  All, IsByte, get_le, get_le-put_le, length-put_le, put_le, put_le-IsByte, slice,
}

-- Slices of a list that is put together from parts.
pub slice_front :
    (i n : ℕ) (xs ys : List ℕ)
    → length xs ≡ i
    → length ys ≡ n
    → (zs : List ℕ) → slice i n (xs ++ (ys ++ zs)) ≡ ys
unfolding slice
slice_front i n xs ys hx hy zs = rw (drop-append i xs (ys ++ zs) hx) (take-append n ys zs hy)

-- A field of a record of fields: skip one.
pub slice_skip :
    (i j n : ℕ) (xs ys : List ℕ) → length xs + j ≡ i → slice i n (xs ++ ys) ≡ slice j n ys
unfolding slice
slice_skip i j n xs ys e = rw (drop-skip i j xs ys e) refl

pub slice_first : (n : ℕ) (xs ys : List ℕ) → length xs ≡ n → slice 0 n (xs ++ ys) ≡ xs
unfolding slice
slice_first n xs ys e = take-append n xs ys e

-- A message whose integers fit their widths and whose body is not too large.
pub record IsMessage (m : Message) : Type 0 where
  pub salt_fits : m.salt < 2 ^ 64
  pub session_fits : m.session_id < 2 ^ 64
  pub id_fits : m.msg_id < 2 ^ 64
  pub seq_fits : m.seq_no < 2 ^ 32
  pub size_fits : length m.body ≤ max_message_size
  pub bytes : All IsByte m.body

pub pad_length_bounds :
    (m : Message)
    → (13 ≤ pad_length m)
      × (pad_length m ≤ 28)
      × ((header_size + length m.body + pad_length m) % 16 ≡ 0)
unfolding pad_length
pad_length_bounds m = ground arith

pub length-envelope_header : (m : Message) → IsBlock 32 (envelope_header m)
unfolding envelope_header
length-envelope_header m =
    let field : (w v : ℕ) → IsBlock w (put_le w v) =
      λ w v. record { size = length-put_le w v; bytes = put_le-IsByte w v } in
    IsBlock-append 8 24 _ _ (field 8 m.salt) (
      IsBlock-append 8 16 _ _ (field 8 m.session_id) (
        IsBlock-append 8 8 _ _ (field 8 m.msg_id)
          (IsBlock-append 4 4 _ _ (field 4 m.seq_no) (field 4 (length m.body)))))

pub slice_last :
    (i n : ℕ) (xs ys : List ℕ) → length xs ≡ i → length ys ≡ n → slice i n (xs ++ ys) ≡ ys
unfolding slice
slice_last i n xs ys hx hy = rw (drop-append i xs ys hx) (take_all n ys hy)

-- A slice of a first part.
pub slice_prefix :
    (i n : ℕ) (xs ys : List ℕ) → i + n ≤ length xs → slice i n (xs ++ ys) ≡ slice i n xs
unfolding slice
slice_prefix i n xs ys h =
    rw (drop_prefix i xs ys (omega (arith, h)))
      (take_prefix n (drop i xs) ys (omega (arith, length-drop i xs, h)))

module _ (m : Message) (rest : List ℕ) where
  in_header :
      (i n : ℕ) → i + n ≤ 32 → slice i n (envelope_header m ++ rest) ≡ slice i n (envelope_header m)
  in_header i n h =
      slice_prefix i n (envelope_header m) rest (omega (arith, (length-envelope_header m).size, h))

  salt_field : slice 0 8 (envelope_header m ++ rest) ≡ put_le 8 m.salt
  unfolding envelope_header
  salt_field = in_header 0 8 (omega arith) ∙ slice_first 8 _ _ (length-put_le 8 m.salt)

  session_field : slice 8 8 (envelope_header m ++ rest) ≡ put_le 8 m.session_id
  unfolding envelope_header
  session_field =
      in_header 8 8 (omega arith)
      ∙ slice_front 8 8 _ _ (length-put_le 8 m.salt) (length-put_le 8 m.session_id) _

  id_field : slice 16 8 (envelope_header m ++ rest) ≡ put_le 8 m.msg_id
  unfolding envelope_header
  id_field =
      in_header 16 8 (omega arith)
      ∙ slice_skip 16 8 8 _ _ (ap (λ n. n + 8) (length-put_le 8 m.salt))
      ∙ slice_front 8 8 _ _ (length-put_le 8 m.session_id) (length-put_le 8 m.msg_id) _

  seq_field : slice 24 4 (envelope_header m ++ rest) ≡ put_le 4 m.seq_no
  unfolding envelope_header
  seq_field =
      in_header 24 4 (omega arith)
      ∙ slice_skip 24 16 4 _ _ (ap (λ n. n + 16) (length-put_le 8 m.salt))
      ∙ slice_skip 16 8 4 _ _ (ap (λ n. n + 8) (length-put_le 8 m.session_id))
      ∙ slice_front 8 4 _ _ (length-put_le 8 m.msg_id) (length-put_le 4 m.seq_no) _

  length_field : slice 28 4 (envelope_header m ++ rest) ≡ put_le 4 (length m.body)
  unfolding envelope_header
  length_field =
      in_header 28 4 (omega arith)
      ∙ slice_skip 28 20 4 _ _ (ap (λ n. n + 20) (length-put_le 8 m.salt))
      ∙ slice_skip 20 12 4 _ _ (ap (λ n. n + 12) (length-put_le 8 m.session_id))
      ∙ slice_skip 12 4 4 _ _ (ap (λ n. n + 4) (length-put_le 8 m.msg_id))
      ∙ slice_last 4 4 _ _ (length-put_le 4 m.seq_no) (length-put_le 4 (length m.body))

pub open_plaintext-header :
    (m : Message) (padding : List ℕ)
    → IsMessage m
    → min_padding ≤ length padding
    → length padding ≤ max_padding
    → open_plaintext (envelope_header m ++ (m.body ++ padding)) ≡ ok m
unfolding open_plaintext
open_plaintext-header m padding h low high =
    let rest = m.body ++ padding in
    let size : length (envelope_header m ++ rest) ≡ 32 + length m.body + length padding = omega (
      arith,
      length-append (envelope_header m) rest,
      (length-envelope_header m).size,
      length-append m.body padding,
    ) in
    let body_len : get_le (slice 28 4 (envelope_header m ++ rest)) ≡ length m.body =
      rw (length_field m rest) (get_le-put_le 4 (length m.body) (omega (arith, h.size_fits))) in
    let body : slice 32 (length m.body) (envelope_header m ++ rest) ≡ m.body =
      slice_front 32 (length m.body) (envelope_header m) m.body (length-envelope_header m).size refl
        padding in
    rw
      (
        body_len,
        size,
        body,
        salt_field m rest,
        session_field m rest,
        id_field m rest,
        seq_field m rest,
        get_le-put_le 8 m.salt h.salt_fits,
        get_le-put_le 8 m.session_id h.session_fits,
        get_le-put_le 8 m.msg_id h.id_fits,
        get_le-put_le 4 m.seq_no h.seq_fits,
      )
      (ground (arith, h.size_fits, low, high))

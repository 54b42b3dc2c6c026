-- ===== src/Mtproto/Envelope.antt =====
-- pkg/mtproto/message.go: the encrypted and the plain envelope of a message.
pub mod RoundTrip
pub mod Sealed
pub mod Authentic
pub mod Plain
use messaging_app.Prelude.{
  Bool, List, Option, Result, drop, err, if◌then◌else◌, length, ltb, none, not, ok, refuse, some,
  take, ℕ, ◌%◌, ◌&&◌, ◌*◌, ◌++◌, ◌+◌, ◌-◌, ◌==◌, ◌>>=◌, ◌>>◌, ◌^◌, ◌||◌,
}
use messaging_app.Mtproto.{
  Crypto, Error, bad_block_size, bad_length, bad_padding, body_too_large, no_random, short_frame,
  unknown_auth_key,
}
use messaging_app.Mtproto.Ige.{block_size, ige_decrypt, ige_encrypt}
use messaging_app.Mtproto.Keys.{AuthKey, Direction, derive_aes_key_iv, msg_key, verify_msg_key}
use messaging_app.Prelude.Bytes.{get_le, put_le, slice}

-- `headerSize`, `minPadding`, `maxPadding`, `MaxMessageSize`
abbrev pub header_size : ℕ
header_size = 32

abbrev pub min_padding : ℕ
min_padding = 12

abbrev pub max_padding : ℕ
max_padding = 1024

abbrev pub max_message_size : ℕ
max_message_size = 16 * 2 ^ 20

-- `Message`; the signed integers are the unsigned ones of the same bits.
pub record Message : Type 0 where
  pub salt : ℕ
  pub session_id : ℕ
  pub msg_id : ℕ
  pub seq_no : ℕ
  pub body : List ℕ

-- `IsContentRelated`: the remainder of a negative number is not 1.
unfoldable pub is_content_related : Message → Bool
is_content_related m = m.seq_no % 2 == 1 && ltb m.seq_no (2 ^ 31)

-- The 32 bytes that stand before the body.
unfoldable pub envelope_header : Message → List ℕ
envelope_header m =
    put_le 8 m.salt
    ++ (put_le 8 m.session_id
        ++ (put_le 8 m.msg_id ++ (put_le 4 m.seq_no ++ put_le 4 (length m.body))))

-- The length of the padding.
unfoldable pub pad_length : Message → ℕ
pad_length m =
    let unpadded = header_size + length m.body in
    let pad = min_padding + (16 - (unpadded + min_padding) % 16) in
    if ltb pad min_padding then pad + 16 else pad

-- `Encrypt`; `random n` is what `rand.Read` gives for `n` bytes, `none` if it fails.
unfoldable pub encrypt :
    Crypto → (ℕ → Option (List ℕ)) → AuthKey → Message → Direction → Result Error (List ℕ)
encrypt crypto random k m d = do
  refuse (ltb max_message_size (length m.body)) body_too_large
  padding ← elim (random (pad_length m)) [ none ↦ err no_random | some bs ↦ ok bs ]
  let plaintext = envelope_header m ++ (m.body ++ padding)
  let mk = msg_key crypto k plaintext d
  (key, iv) ← derive_aes_key_iv crypto k mk d
  ciphertext ← ige_encrypt crypto key iv plaintext
  ok (put_le 8 k.id ++ (mk ++ ciphertext))

-- `PeekAuthKeyID`
unfoldable pub peek_auth_key_id : List ℕ → Result Error ℕ
peek_auth_key_id frame = do refuse (ltb (length frame) 8) short_frame; ok (get_le (take 8 frame))

-- The part of `Decrypt` behind the check of the message key.
unfoldable pub open_plaintext : List ℕ → Result Error Message
open_plaintext plaintext = do
  let body_len = get_le (slice 28 4 plaintext)
  refuse (ltb max_message_size body_len || ltb (length plaintext) (header_size + body_len))
      bad_length
  let pad = length plaintext - header_size - body_len
  refuse (ltb pad min_padding || ltb max_padding pad) bad_padding
  ok (record {
    salt = get_le (slice 0 8 plaintext);
    session_id = get_le (slice 8 8 plaintext);
    msg_id = get_le (slice 16 8 plaintext);
    seq_no = get_le (slice 24 4 plaintext);
    body = slice header_size body_len plaintext;
  })

-- `Decrypt`
unfoldable pub decrypt : Crypto → AuthKey → List ℕ → Direction → Result Error Message
decrypt crypto k frame d = do
  refuse (ltb (length frame) (8 + 16 + header_size + min_padding)) short_frame
  refuse (not (get_le (take 8 frame) == k.id)) unknown_auth_key
  let mk = slice 8 16 frame
  let ciphertext = drop 24 frame
  refuse (not (length ciphertext % block_size == 0)) bad_block_size
  (key, iv) ← derive_aes_key_iv crypto k mk d
  plaintext ← ige_decrypt crypto key iv ciphertext
  verify_msg_key crypto k plaintext mk d
  open_plaintext plaintext

-- `EncodePlain`
unfoldable pub encode_plain : ℕ → List ℕ → List ℕ
encode_plain msg_id body = put_le 8 0 ++ (put_le 8 msg_id ++ (put_le 4 (length body) ++ body))

-- `DecodePlain`
unfoldable pub decode_plain : List ℕ → Result Error (ℕ × List ℕ)
decode_plain frame = do
  refuse (ltb (length frame) 20) short_frame
  refuse (not (get_le (slice 0 8 frame) == 0)) unknown_auth_key
  let n = get_le (slice 16 4 frame)
  refuse (ltb max_message_size n || ltb (length frame) (20 + n)) bad_length
  ok (get_le (slice 8 8 frame), slice 20 n frame)

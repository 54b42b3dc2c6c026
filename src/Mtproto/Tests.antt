-- ===== src/Mtproto/Tests.antt =====
-- Keys, envelopes, identifiers and the factorisation on small inputs.
use messaging_app.Prelude.{
  List, Option, Result, [], arith, drop, err, length, length-replicate, ok, refl, replicate, some,
  suc, take, zero, ℕ, ◌%◌, ◌*◌, ◌+◌, ◌-◌, ◌<◌, ◌^◌, ◌↔◌, ◌∷◌, ◌≡◌, ◌≤◌,
}
use messaging_app.Mtproto.{Crypto, Error, IsBlock, IsCrypto, unknown_auth_key}
use messaging_app.Mtproto.Envelope.{
  Message, decode_plain, decrypt, encode_plain, encrypt, envelope_header, max_message_size,
  open_plaintext, pad_length,
}
use messaging_app.Mtproto.Envelope.Authentic.{decrypt_authentic}
use messaging_app.Mtproto.Envelope.Plain.{decode_plain-encode_plain, decode_plain_of_encrypted}
use messaging_app.Mtproto.Envelope.RoundTrip.{IsMessage}
use messaging_app.Mtproto.Envelope.Sealed.{decrypt-encrypt}
use messaging_app.Mtproto.Ige.{
  check_sizes, decrypt_blocks, encrypt_blocks, ige_decrypt, ige_encrypt, xor_bytes,
}
use messaging_app.Mtproto.Ige.RoundTrip.{ige_decrypt-ige_encrypt}
use messaging_app.Mtproto.Keys.{
  AuthKey, client_to_server, derive_aes_key_iv, msg_key, verify_msg_key, x_of,
}
use messaging_app.Mtproto.MsgId.{
  Validator, check, clock, make_room, new_validator, next_id, second, time_of,
}
use messaging_app.Mtproto.MsgId.Order.{next_id_ascends}
use messaging_app.Mtproto.MsgId.Window.{check_bounded, check_replay}
use messaging_app.Mtproto.Pq.{brent, factor_pq, gcd_fuel, try_constants, verify_pq}
use messaging_app.Mtproto.Pq.Factors.{factor_pq_sound, verify_pq_forged, verify_pq_iff}
use messaging_app.Prelude.Assoc.{insert, lookup}
use messaging_app.Prelude.Bits.{xor_bits}
use messaging_app.Prelude.Bytes.{
  All, IsByte, all_bytes_sound, bytes_eq, get_le, length-put_le, put_le, put_le-IsByte, slice,
}

-- A cipher that changes nothing and digests that hold one number.
abbrev trivial_crypto : Crypto
trivial_crypto = record {
  sha256 = λ m. put_le 32 (get_le m);
  sha1 = λ m. put_le 20 (get_le m);
  aes_encrypt = λ key b. b;
  aes_decrypt = λ key b. b;
}

trivial_crypto-IsCrypto : IsCrypto trivial_crypto
trivial_crypto-IsCrypto = record {
  sha256_size =
      λ m. record { size = length-put_le 32 (get_le m); bytes = put_le-IsByte 32 (get_le m) };
  sha1_size =
      λ m. record { size = length-put_le 20 (get_le m); bytes = put_le-IsByte 20 (get_le m) };
  aes_size = λ key b h. h;
  aes_inverse = λ key b h. refl;
}

zeros_IsByte : (n : ℕ) → All IsByte (replicate n 0)
zeros_IsByte zero = tt
zeros_IsByte (suc n) = (omega arith, zeros_IsByte n)

zeros_IsBlock : (n : ℕ) → IsBlock n (replicate n 0)
zeros_IsBlock n = record { size = length-replicate n 0; bytes = zeros_IsByte n }

abbrev some_key : AuthKey
some_key = record { raw = replicate 256 7; id = 42 }

abbrev some_message : Message
some_message = record { salt = 1; session_id = 2; msg_id = 3; seq_no = 4; body = 5 ∷ 6 ∷ [] }

some_message-IsMessage : IsMessage some_message
some_message-IsMessage = record {
  salt_fits = omega arith;
  session_fits = omega arith;
  id_fits = omega arith;
  seq_fits = omega arith;
  size_fits = omega arith;
  bytes = (omega arith, (omega arith, tt));
}

abbrev zero_reader : ℕ → Option (List ℕ)
zero_reader n = some (replicate n 0)

decrypt-encrypt_example :
    (frame : List ℕ) × (encrypt trivial_crypto zero_reader some_key some_message client_to_server
      ≡ ok frame)
    × (decrypt trivial_crypto some_key frame client_to_server ≡ ok some_message)
decrypt-encrypt_example =
    decrypt-encrypt trivial_crypto trivial_crypto-IsCrypto zero_reader
      (replicate (pad_length some_message) 0) some_key some_message client_to_server (omega arith)
      some_message-IsMessage refl (zeros_IsBlock (pad_length some_message))

ige_decrypt-ige_encrypt_example :
    (out : List ℕ) × (ige_encrypt trivial_crypto (replicate 32 0) (replicate 32 0) (replicate 16 9)
      ≡ ok out)
    × IsBlock 16 out
    × (ige_decrypt trivial_crypto (replicate 32 0) (replicate 32 0) out ≡ ok (replicate 16 9))
ige_decrypt-ige_encrypt_example =
    ige_decrypt-ige_encrypt trivial_crypto trivial_crypto-IsCrypto (replicate 32 0) (replicate 32 0)
      (replicate 16 9) refl (zeros_IsBlock 32) (omega arith) refl
      (all_bytes_sound (replicate 16 9) refl)

plain_read_back : decode_plain (encode_plain 3 (1 ∷ 2 ∷ [])) ≡ ok (3, 1 ∷ 2 ∷ [])
plain_read_back = decode_plain-encode_plain 3 (1 ∷ 2 ∷ []) (omega arith) (omega arith)

next_id_ascends_example :
    (100 < (next_id 1 5 (record { last = 100; offset = 0 })).0)
    × ((next_id 1 5 (record { last = 100; offset = 0 })).0 % 4 ≡ 1)
    × ((5 + 0) * 2 ^ 32 ≤ (next_id 1 5 (record { last = 100; offset = 0 })).0)
    × ((next_id 1 5 (record { last = 100; offset = 0 })).1.last
        ≡ (next_id 1 5 (record { last = 100; offset = 0 })).0)
next_id_ascends_example =
    next_id_ascends 1 5 (record { last = 100; offset = 0 }) (omega arith) (omega arith)
      (omega arith)

-- An id of the 1000th second.
abbrev some_id : ℕ
some_id = 1000 * 2 ^ 32

abbrev same_order : List (ℕ × ℕ) → List (ℕ × ℕ)
same_order seen = seen

abbrev seen_once : Validator
seen_once = record {
  behind = 300 * second;
  ahead = 30 * second;
  seen = (some_id, 1000 * second) ∷ [];
  max_seen = 8192;
}

check_replay_example :
    ¬ ((v : Validator) × (check same_order (1001 * second) some_id seen_once ≡ ok v))
unfolding check make_room new_validator time_of clock lookup insert
check_replay_example =
    check_replay same_order same_order (1000 * second) (1001 * second) some_id new_validator
      seen_once refl

check_bounded_example :
    (length seen_once.seen ≤ seen_once.max_seen)
    × (seen_once.max_seen ≡ 8192)
    × (some_id % 2 ≡ 0)
    × (clock (1000 * second) ≤ time_of some_id + 300 * second)
    × (time_of some_id ≤ clock (1000 * second) + 30 * second)
unfolding check make_room new_validator time_of clock lookup insert
check_bounded_example =
    check_bounded same_order (1000 * second) some_id new_validator seen_once (λ seen. refl)
      (omega arith) (omega arith) refl

verify_pq_iff_example : (verify_pq 15 3 5 ≡ ok tt) ↔ ((1 < 3) × (1 < 5) × (3 * 5 ≡ 15))
verify_pq_iff_example = verify_pq_iff 15 3 5 (omega arith)

verify_pq_forged_example : verify_pq 15 (2 ^ 64 - 15) (2 ^ 64 - 1) ≡ ok tt
verify_pq_forged_example = verify_pq_forged 15 (omega arith) (omega arith)

factor_pq_sound_example : (3 * 5 ≡ 15) × (1 < 3) × (1 < 5) × (3 ≤ 5)
unfolding factor_pq try_constants brent gcd_fuel
factor_pq_sound_example = factor_pq_sound 20 15 3 5 refl

abbrev frame_of : Result Error (List ℕ) → List ℕ
frame_of (ok f) = f
frame_of (err e) = []

abbrev some_frame : List ℕ
some_frame = frame_of (encrypt trivial_crypto zero_reader some_key some_message client_to_server)

some_frame_decrypts : decrypt trivial_crypto some_key some_frame client_to_server ≡ ok some_message
unfolding encrypt decrypt derive_aes_key_iv msg_key verify_msg_key open_plaintext envelope_header
    pad_length ige_encrypt ige_decrypt check_sizes encrypt_blocks decrypt_blocks xor_bytes xor_bits
    put_le get_le slice x_of bytes_eq
some_frame_decrypts = refl

encrypted_not_plain : decode_plain some_frame ≡ err unknown_auth_key
encrypted_not_plain =
    decode_plain_of_encrypted trivial_crypto some_key some_frame client_to_server some_message
      (omega arith) some_frame_decrypts

decrypt_authentic_example :
    (plaintext : List ℕ) × (key : List ℕ) × (iv : List ℕ) × (get_le (take 8 some_frame) ≡ 42)
    × (derive_aes_key_iv trivial_crypto some_key (slice 8 16 some_frame) client_to_server
        ≡ ok (key, iv))
    × (ige_decrypt trivial_crypto key iv (drop 24 some_frame) ≡ ok plaintext)
    × (slice 8 16 some_frame ≡ msg_key trivial_crypto some_key plaintext client_to_server)
    × (some_message.body ≡ slice 32 (get_le (slice 28 4 plaintext)) plaintext)
    × (2 ≤ max_message_size)
    × (32 + 2 + 12 ≤ length plaintext)
    × (length plaintext ≤ 32 + 2 + 1024)
decrypt_authentic_example =
    decrypt_authentic trivial_crypto some_key some_frame client_to_server some_message
      some_frame_decrypts

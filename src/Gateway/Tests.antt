-- ===== src/Gateway/Tests.antt =====
-- A session on small inputs.
use messaging_app.Prelude.{
  List, [], ap, arith, length, none, ok, refl, replicate, some, suc, true, zero, ℕ, ◌++◌, ◌∷◌, ◌≡◌,
}
use messaging_app.Gateway.{Env, Session, State, lift, new_session}
use messaging_app.Gateway.Destroyed.{run_destroyed, send_update_destroyed, zero_key}
use messaging_app.Gateway.Dispatch.{handle_destroy_session}
use messaging_app.Gateway.Frames.{handle_frame, route_frame, run}
use messaging_app.Gateway.Plain.{answer_plain, handle_plain, open_plain, plain_req_pq, route_plain}
use messaging_app.Gateway.Send.{
  make_message, send_encrypted, send_plain, send_service, send_update, write_frame, write_message,
}
use messaging_app.Gateway.Store.{delete}
use messaging_app.Mtproto.{Crypto, IsBlock, IsCrypto}
use messaging_app.Mtproto.Envelope.{
  Message, decode_plain, decrypt, encode_plain, encrypt, envelope_header, pad_length,
  peek_auth_key_id,
}
use messaging_app.Mtproto.Envelope.RoundTrip.{IsMessage}
use messaging_app.Mtproto.Handshake.Server.{challenge, check_step, new_server_handshake, req_pq}
use messaging_app.Mtproto.Ige.{check_sizes, encrypt_blocks, ige_encrypt, xor_bytes}
use messaging_app.Mtproto.Keys.{AuthKey, derive_aes_key_iv, msg_key, server_to_client, wipe, x_of}
use messaging_app.Mtproto.MsgId.{next_id, next_seq_no, signed_leb, with_kind}
use messaging_app.Mtproto.Pq.{generate_pq, random_prime31}
use messaging_app.Mtproto.Tl.{c_req_pq, c_update, decode, encode, peek_constructor}
use messaging_app.Prelude.Assoc.{erase}
use messaging_app.Prelude.Bits.{xor_bits}
use messaging_app.Prelude.Bytes.{
  all_bytes_sound, get_le, length-put_le, put_le, put_le-IsByte, slice,
}

-- Digests that hold one number, and a cipher that changes nothing.
abbrev plain_crypto : Crypto
plain_crypto = record {
  sha256 = λ m. put_le 32 (get_le m);
  sha1 = λ m. put_le 20 (get_le m);
  aes_encrypt = λ key b. b;
  aes_decrypt = λ key b. b;
}

plain_crypto-IsCrypto : IsCrypto plain_crypto
plain_crypto-IsCrypto = record {
  sha256_size =
      λ m. record { size = length-put_le 32 (get_le m); bytes = put_le-IsByte 32 (get_le m) };
  sha1_size =
      λ m. record { size = length-put_le 20 (get_le m); bytes = put_le-IsByte 20 (get_le m) };
  aes_size = λ key b h. h;
  aes_inverse = λ key b h. refl;
}

-- Everything works, and the JSON of every value is `{}`.
abbrev some_env : Env
some_env = record {
  crypto = plain_crypto;
  json = record {
    marshal_server = λ d. some (123 ∷ 125 ∷ []);
    unmarshal_server = λ b. none;
    marshal_client = λ d. some (123 ∷ 125 ∷ []);
    unmarshal_client = λ b. none;
  };
  server_key = record { decrypt_oaep = λ b. some b; fingerprint = 7 };
  now = 5;
  order = λ seen. seen;
  random = λ n. some (replicate n 0);
  server_nonce = some (replicate 16 1);
  primes = 1073741827 ∷ 1073741831 ∷ [];
  exponent = some 0;
  new_salt = some 9;
  marshal = λ b. some (123 ∷ 125 ∷ []);
  unmarshal_req_pq = λ b. some (replicate 16 2);
  unmarshal_req_dh = λ b. none;
  unmarshal_set_dh = λ b. none;
  unmarshal_ping = λ b. some (1, 0);
  unmarshal_container = λ b. none;
  unmarshal_bind = λ b. some b;
  unmarshal_request = λ c b. some b;
  resolve_token = λ t. ok (3, 4);
  upstream = λ c. ok (123 ∷ 125 ∷ []);
  handshake_allowed = true;
  writable = true;
  saves = true;
  loads = true;
  subscribes = true;
}

abbrev fresh_state : State
fresh_state = record { session = new_session 0 0; shared = record { keys = []; bindings = [] } }

abbrev some_key : AuthKey
some_key = record { raw = replicate 256 7; id = 42 }

abbrev keyed_state : State
keyed_state = record {
  session = record (new_session 0 0) { auth_key = some some_key; user_id = 3 };
  shared = record { keys = (42, replicate 256 7) ∷ []; bindings = (42, (3, 4)) ∷ [] };
}

-- The first message of the handshake, and a second one.
abbrev req_pq_frame : List ℕ
req_pq_frame = encode_plain 4 (put_le 4 c_req_pq ++ (123 ∷ 125 ∷ []))

-- The first is answered and the second ends the connection.
run_twice :
    length
      ((run ((some_env, req_pq_frame) ∷ (some_env, req_pq_frame) ∷ []) fresh_state).session.written)
    ≡ 1
unfolding run handle_frame peek_auth_key_id route_frame handle_plain open_plain decode_plain lift
    peek_constructor route_plain plain_req_pq decode req_pq check_step challenge generate_pq
    random_prime31 answer_plain send_plain encode write_frame encode_plain next_id with_kind
    signed_leb get_le put_le slice new_session new_server_handshake
run_twice = refl

frames_after_destroy :
    run ((some_env, req_pq_frame) ∷ []) (handle_destroy_session some_env keyed_state)
    ≡ handle_destroy_session some_env keyed_state
unfolding new_session
frames_after_destroy =
    run_destroyed some_env keyed_state some_key ((some_env, req_pq_frame) ∷ []) refl

abbrev some_payload : List ℕ
some_payload = put_le 4 c_update ++ (123 ∷ 125 ∷ [])

abbrev destroyed : Session
destroyed = (handle_destroy_session some_env keyed_state).session

abbrev some_message : Message
some_message = (make_message some_env true some_payload destroyed).0

some_message-IsMessage : IsMessage some_message
unfolding handle_destroy_session send_service send_encrypted write_message make_message write_frame
    next_id next_seq_no encode encrypt derive_aes_key_iv ige_encrypt check_sizes encrypt_blocks
    xor_bytes xor_bits msg_key pad_length envelope_header new_session wipe delete erase with_kind
    signed_leb put_le get_le slice x_of
some_message-IsMessage = record {
  salt_fits = omega arith;
  session_fits = omega arith;
  id_fits = omega arith;
  seq_fits = omega arith;
  size_fits = omega arith;
  bytes = all_bytes_sound some_payload refl;
}

zeros : (n : ℕ) → IsBlock n (replicate n 0)
zeros zero = record { size = refl; bytes = tt }
zeros (suc n) =
    let rest = zeros n in record { size = ap suc rest.size; bytes = (omega arith, rest.bytes) }

send_update_destroyed_example :
    (frame : List ℕ) × ((send_update some_env [] destroyed).0.written ≡ frame ∷ destroyed.written)
    × (decrypt plain_crypto zero_key frame server_to_client ≡ ok some_message)
unfolding new_session encode
send_update_destroyed_example =
    send_update_destroyed some_env plain_crypto-IsCrypto [] some_payload
      (replicate (pad_length some_message) 0) keyed_state some_key refl refl refl refl
      some_message-IsMessage refl (zeros (pad_length some_message))

-- ===== src/Mtproto/Handshake/Tests.antt =====
-- The handshake on small inputs, with libraries that do as little as they may.
use messaging_app.Prelude.{
  List, Result, [], drop, err, length, none, ok, refl, replicate, some, true, ℕ, ◌++◌, ◌-◌, ◌^◌,
  ◌≡◌, ◌≤◌,
}
use messaging_app.Mtproto.{Crypto, Error}
use messaging_app.Mtproto.Handshake.{ClientDhInnerData, Json, SetClientDhParams, decode_inner}
use messaging_app.Mtproto.Handshake.Agreement.{Draws}
use messaging_app.Mtproto.Handshake.Client.{ClientHandshake}
use messaging_app.Mtproto.Handshake.Group.{big_bytes, dh_prime, digits, exp_mod, validate_dh_value}
use messaging_app.Mtproto.Handshake.Inner.{
  ige_open, ige_seal, inner_padding, new_nonce_hash, tmp_aes_key_iv, try_cuts,
}
use messaging_app.Mtproto.Handshake.Phases.{Refines, offer_value, serve, serve-Refines}
use messaging_app.Mtproto.Handshake.Secret.{
  SealedIn, key_of, set_client_dh_params_accepted, set_client_dh_params_key,
}
use messaging_app.Mtproto.Handshake.Server.{
  ServerHandshake, ServerKey, check_client_dh, check_nonces, check_step, is_done,
  new_server_handshake,
}
use messaging_app.Mtproto.Ige.{
  check_sizes, decrypt_blocks, encrypt_blocks, ige_decrypt, ige_encrypt, xor_bytes,
}
use messaging_app.Mtproto.Keys.{AuthKey}
use messaging_app.Prelude.Bits.{xor_bits}
use messaging_app.Prelude.Bytes.{bytes_eq, get_be, get_le, put_be, put_le, slice}

-- Digests that hold a length, and a cipher that changes nothing.
abbrev length_crypto : Crypto
length_crypto = record {
  sha256 = λ m. put_le 32 (length m);
  sha1 = λ m. put_le 20 (length m);
  aes_encrypt = λ key b. b;
  aes_decrypt = λ key b. b;
}

-- Fields one after the other, the fixed ones left out.
abbrev plain_json : Json
plain_json = record {
  marshal_server =
      λ d. some (d.nonce ++ (d.server_nonce ++ (d.dh_prime ++ (put_be 8 d.server_time ++ d.g_a))));
  unmarshal_server = λ b. some (record {
    nonce = slice 0 16 b;
    server_nonce = slice 16 16 b;
    g = 2;
    dh_prime = slice 32 256 b;
    g_a = drop 296 b;
    server_time = get_be (slice 288 8 b);
  });
  marshal_client = λ d. some (d.nonce ++ (d.server_nonce ++ d.g_b));
  unmarshal_client = λ b. some (record {
    nonce = slice 0 16 b;
    server_nonce = slice 16 16 b;
    retry_id = 0;
    g_b = drop 32 b;
  });
}

abbrev some_server_key : ServerKey
some_server_key = record { decrypt_oaep = λ b. some b; fingerprint = 7 }

-- A server that has sent 15 as its challenge, and a client that has seen nothing yet.
abbrev some_server : ServerHandshake
some_server = record (new_server_handshake 0 1000) { pq = 15; p = 3; q = 5; step = 1 }

abbrev some_client : ClientHandshake
some_client = record {
  encrypt_oaep = λ m. some m;
  fp = 7;
  nonce = replicate 16 0;
  server_nonce = [];
  new_nonce = [];
  b = none;
  g_a = none;
}

abbrev some_draws : Draws
some_draws = record {
  new_nonce = replicate 32 0;
  server_exponent = 0;
  client_exponent = 1;
  random = λ n. some (replicate n 0);
  steps = 20;
  now = 5;
}

-- A server that waits for the client's value, and a client's value in range.
abbrev waiting_server : ServerHandshake
waiting_server = record (new_server_handshake 0 1000) { a = 3; step = 2 }

abbrev bytes_of : Result Error (List ℕ) → List ℕ
bytes_of (ok b) = b
bytes_of (err e) = []

abbrev some_keys : List ℕ × List ℕ
some_keys = tmp_aes_key_iv length_crypto (replicate 32 0) (replicate 16 0)

abbrev some_value : SetClientDhParams
some_value = record {
  nonce = replicate 16 0;
  server_nonce = replicate 16 0;
  encrypted_data = bytes_of (
      ige_seal length_crypto (λ n. some (replicate n 0)) some_keys.0 some_keys.1
        (replicate 32 0 ++ big_bytes (2 ^ 2000)));
}

some_value_accepted :
    check_client_dh length_crypto plain_json 5 some_value waiting_server ≡ ok (2 ^ 2000)
unfolding check_client_dh check_step check_nonces tmp_aes_key_iv ige_open ige_seal try_cuts
    inner_padding decode_inner validate_dh_value get_be get_le bytes_eq big_bytes digits
    new_server_handshake slice put_le ige_encrypt ige_decrypt check_sizes encrypt_blocks
    decrypt_blocks xor_bytes xor_bits
some_value_accepted = refl

serve-Refines_example :
    Refines waiting_server
      (serve length_crypto plain_json some_server_key (offer_value 5 some_value) waiting_server)
serve-Refines_example =
    serve-Refines length_crypto plain_json some_server_key (offer_value 5 some_value) waiting_server

abbrev zero_nonce : List ℕ
zero_nonce = replicate 16 0

abbrev some_key : AuthKey
some_key = key_of length_crypto (exp_mod (2 ^ 2000) 3)

set_client_dh_params_key_example :
    ((waiting_server.step ≡ 2) × (5 ≤ waiting_server.deadline))
    × ((zero_nonce ≡ zero_nonce) × (zero_nonce ≡ zero_nonce))
    × (inner : ClientDhInnerData) × SealedIn length_crypto plain_json waiting_server some_value
        inner
    × ((inner.nonce ≡ zero_nonce) × (inner.server_nonce ≡ zero_nonce))
    × ((2 ^ 1984 ≤ get_be inner.g_b) × (get_be inner.g_b ≤ dh_prime - 2 ^ 1984))
    × (some_key.raw ≡ put_be 256 (exp_mod (get_be inner.g_b) 3))
    × (new_nonce_hash length_crypto (replicate 32 0) 1 some_key
        ≡ new_nonce_hash length_crypto (replicate 32 0) 1 some_key)
    × (is_done (record waiting_server { g_b = 2 ^ 2000; step = 3 }) ≡ true)
unfolding new_server_handshake
set_client_dh_params_key_example =
    set_client_dh_params_key length_crypto plain_json 5 some_value waiting_server
      (record waiting_server { g_b = 2 ^ 2000; step = 3 })
      (key_of length_crypto (exp_mod (2 ^ 2000) 3))
      (record {
        nonce = replicate 16 0;
        server_nonce = replicate 16 0;
        new_nonce_hash =
            new_nonce_hash length_crypto (replicate 32 0) 1
              (key_of length_crypto (exp_mod (2 ^ 2000) 3));
      })
      (set_client_dh_params_accepted length_crypto plain_json 5 some_value waiting_server (2 ^ 2000)
        some_value_accepted)

-- ===== src/Mtproto/Handshake/Server.antt =====
-- pkg/mtproto/handshake.go: the server's half. A step returns the state that it leaves behind, after an
-- error too, and its answer. What the random reader gives is an argument, `none` where it fails.
use messaging_app.Prelude.{
  Bool, List, Option, Result, [], err, if◌then◌else◌, ltb, none, not, ok, refuse, replicate, some,
  ℕ, ◌*◌, ◌+◌, ◌/◌, ◌==◌, ◌>>=◌, ◌>>◌, ◌^◌, ◌||◌, ◌∷◌,
}
use messaging_app.Mtproto.{
  Crypto, Error, handshake_expired, handshake_state, inner_mismatch, no_random, nonce_mismatch,
  not_decrypted, unknown_rsa_key,
}
use messaging_app.Mtproto.Handshake.{
  DhGenOk, Json, PqInnerData, ReqDhParams, ResPq, ServerDhParams, SetClientDhParams, decode_inner,
  encode_inner, unmarshal_binary,
}
use messaging_app.Mtproto.Handshake.Group.{
  big_bytes, dh_g, dh_prime, exp_mod, left_pad, validate_dh_value,
}
use messaging_app.Mtproto.Handshake.Inner.{ige_open, ige_seal, new_nonce_hash, tmp_aes_key_iv}
use messaging_app.Mtproto.Keys.{AuthKey, auth_key_size, new_auth_key}
use messaging_app.Mtproto.Pq.{generate_pq, verify_pq}
use messaging_app.Prelude.Bytes.{bytes_eq, get_be}

-- `ServerKey`: decryption under the private key, `none` for an error, and the fingerprint.
pub record ServerKey : Type 0 where
  pub decrypt_oaep : List ℕ → Option (List ℕ)
  pub fingerprint : ℕ

-- `ServerHandshake`; the three integers of the exchange are 0 until they are set.
pub record ServerHandshake : Type 0 where
  pub nonce : List ℕ
  pub server_nonce : List ℕ
  pub new_nonce : List ℕ
  pub pq : ℕ
  pub p : ℕ
  pub q : ℕ
  pub a : ℕ
  pub g_a : ℕ
  pub g_b : ℕ
  pub step : ℕ
  pub deadline : ℕ

-- `NewServerHandshake`
unfoldable pub new_server_handshake : ℕ → ℕ → ServerHandshake
new_server_handshake now timeout = record {
  nonce = replicate 16 0;
  server_nonce = replicate 16 0;
  new_nonce = replicate 32 0;
  pq = 0;
  p = 0;
  q = 0;
  a = 0;
  g_a = 0;
  g_b = 0;
  step = 0;
  deadline = now + (if timeout == 0 then 30 * 1000000000 else timeout);
}

-- The two checks that open each step: that it is the one expected, and that there is time left.
unfoldable pub check_step : ℕ → ℕ → ServerHandshake → Result Error Unit
check_step now step h = do
  refuse (not (h.step == step)) handshake_state
  refuse (ltb h.deadline now) handshake_expired

-- `req.Nonce != h.nonce || req.ServerNonce != h.serverNonce`
unfoldable pub check_nonces : List ℕ → List ℕ → ServerHandshake → Result Error Unit
check_nonces nonce server_nonce h =
    refuse (not (bytes_eq nonce h.nonce) || not (bytes_eq server_nonce h.server_nonce))
      nonce_mismatch

-- What `ReqPQ` does past its checks; `primes` are the numbers that `rand.Prime` draws.
unfoldable pub challenge :
    ServerKey → Option (List ℕ) → List ℕ → ServerHandshake → ServerHandshake × Result Error ResPq
challenge key drawn primes h = elim drawn [
  | none ↦ (h, err no_random)
  | some server_nonce ↦
      let h1 = record h { server_nonce = server_nonce } in
      elim (generate_pq 64 primes) [
        | err e ↦ (h1, err e)
        | ok (pq, p, q) ↦ (
          record h1 { pq = pq; p = p; q = q; step = 1 },
          ok (record {
            nonce = h.nonce;
            server_nonce = server_nonce;
            pq = pq;
            rsa_fingerprints = key.fingerprint ∷ [];
          }),
        )
      ]
]

-- `ReqPQ`
unfoldable pub req_pq :
    ServerKey
    → ℕ
    → Option (List ℕ)
    → List ℕ
    → List ℕ
    → ServerHandshake
    → ServerHandshake × Result Error ResPq
req_pq key now drawn primes client_nonce h = elim (check_step now 0 h) [
  | err e ↦ (h, err e)
  | ok u ↦ challenge key drawn primes (record h { nonce = client_nonce })
]

-- The checks of `ReqDHParams`, up to the inner data that the request carries.
unfoldable pub check_req_dh_params :
    ServerKey → ℕ → ReqDhParams → ServerHandshake → Result Error PqInnerData
check_req_dh_params key now req h = do
  check_step now 1 h
  check_nonces req.nonce req.server_nonce h
  refuse (not (req.rsa_fingerprint == key.fingerprint)) unknown_rsa_key
  verify_pq h.pq req.p req.q
  plain ← elim (key.decrypt_oaep req.encrypted_data) [ none ↦ err not_decrypted | some b ↦ ok b ]
  inner ← unmarshal_binary plain
  check_nonces inner.nonce inner.server_nonce h
  refuse (not (inner.pq == h.pq) || (not (inner.p == req.p) || not (inner.q == req.q)))
      inner_mismatch
  ok inner

module _ (crypto : Crypto) (json : Json) where
  -- The sealed answer of `ReqDHParams`.
  unfoldable pub seal_answer : ℕ → (ℕ → Option (List ℕ)) → ServerHandshake → Result Error (List ℕ)
  seal_answer now random h = do
    plain ← encode_inner json.marshal_server (record {
      nonce = h.nonce;
      server_nonce = h.server_nonce;
      g = 2;
      dh_prime = big_bytes dh_prime;
      g_a = big_bytes h.g_a;
      server_time = now / 1000000000;
    })
    let (key, iv) = tmp_aes_key_iv crypto h.new_nonce h.server_nonce
    ige_seal crypto random key iv plain

  -- What `ReqDHParams` does past its checks; `drawn` is what `rand.Int` gives.
  unfoldable pub answer_dh :
      ℕ
      → Option ℕ
      → (ℕ → Option (List ℕ))
      → ServerHandshake
      → ServerHandshake × Result Error ServerDhParams
  answer_dh now drawn random h = elim drawn [
    | none ↦ (h, err no_random)
    | some r ↦
        let a = r + 2 ^ 20 in
        let h1 = record h { a = a; g_a = exp_mod dh_g a } in
        elim (seal_answer now random h1) [
          | err e ↦ (h1, err e)
          | ok sealed ↦ (
            record h1 { step = 2 },
            ok (record {
              nonce = h.nonce;
              server_nonce = h.server_nonce;
              encrypted_answer = sealed;
            }),
          )
        ]
  ]

  -- `ReqDHParams`
  unfoldable pub req_dh_params :
      ServerKey
      → ℕ
      → Option ℕ
      → (ℕ → Option (List ℕ))
      → ReqDhParams
      → ServerHandshake
      → ServerHandshake × Result Error ServerDhParams
  req_dh_params key now drawn random req h = elim (check_req_dh_params key now req h) [
    | err e ↦ (h, err e)
    | ok inner ↦ answer_dh now drawn random (record h { new_nonce = inner.new_nonce })
  ]

  -- The checks of `SetClientDHParams`, up to the client's public value.
  unfoldable pub check_client_dh : ℕ → SetClientDhParams → ServerHandshake → Result Error ℕ
  check_client_dh now req h = do
    check_step now 2 h
    check_nonces req.nonce req.server_nonce h
    let (key, iv) = tmp_aes_key_iv crypto h.new_nonce h.server_nonce
    plain ← ige_open crypto key iv req.encrypted_data
    inner ← decode_inner json.unmarshal_client plain
    check_nonces inner.nonce inner.server_nonce h
    validate_dh_value (get_be inner.g_b)
    ok (get_be inner.g_b)

  -- What `SetClientDHParams` does past its checks.
  unfoldable pub confirm : ServerHandshake → ServerHandshake × Result Error (AuthKey × DhGenOk)
  confirm h = elim (new_auth_key crypto (left_pad (big_bytes (exp_mod h.g_b h.a)) auth_key_size)) [
    | err e ↦ (h, err e)
    | ok key ↦ (
      record h { step = 3 },
      ok (
        key,
        record {
          nonce = h.nonce;
          server_nonce = h.server_nonce;
          new_nonce_hash = new_nonce_hash crypto h.new_nonce 1 key;
        },
      ),
    )
  ]

  -- `SetClientDHParams`
  unfoldable pub set_client_dh_params :
      ℕ → SetClientDhParams → ServerHandshake → ServerHandshake × Result Error (AuthKey × DhGenOk)
  set_client_dh_params now req h = elim (check_client_dh now req h) [
    | err e ↦ (h, err e)
    | ok g_b ↦ confirm (record h { g_b = g_b })
  ]

-- `Done`
unfoldable pub is_done : ServerHandshake → Bool
is_done h = h.step == 3

-- ===== src/Mtproto/Handshake/Client.antt =====
-- pkg/mtproto/handshake_client.go: the client's half. A step returns the state that it leaves behind,
-- after an error too, and its message.
use messaging_app.Prelude.{
  Bool, List, Option, Result, [], err, false, if◌then◌else◌, none, not, ok, refuse, some, true, ℕ,
  ◌+◌, ◌==◌, ◌>>=◌, ◌>>◌, ◌^◌, ◌||◌, ◌∷◌,
}
use messaging_app.Mtproto.{
  Crypto, Error, bad_dh_value, handshake_state, key_mismatch, no_random, nonce_mismatch,
  not_encrypted, unknown_rsa_key,
}
use messaging_app.Mtproto.Handshake.{
  DhGenOk, Json, ReqDhParams, ResPq, ServerDhParams, SetClientDhParams, decode_inner, encode_inner,
  marshal_binary,
}
use messaging_app.Mtproto.Handshake.Group.{
  big_bytes, dh_g, dh_prime, exp_mod, left_pad, validate_dh_value,
}
use messaging_app.Mtproto.Handshake.Inner.{ige_open, ige_seal, new_nonce_hash, tmp_aes_key_iv}
use messaging_app.Mtproto.Keys.{AuthKey, auth_key_size, new_auth_key}
use messaging_app.Mtproto.Pq.{factor_pq}
use messaging_app.Prelude.Bytes.{bytes_eq, get_be}

-- `ClientHandshake`: encryption under the pinned public key, `none` for an error, its fingerprint, and
-- the state. The two integers are `none` until they are set.
pub record ClientHandshake : Type 0 where
  pub encrypt_oaep : List ℕ → Option (List ℕ)
  pub fp : ℕ
  pub nonce : List ℕ
  pub server_nonce : List ℕ
  pub new_nonce : List ℕ
  pub b : Option ℕ
  pub g_a : Option ℕ

-- `Start`
unfoldable pub start : Option (List ℕ) → ClientHandshake → ClientHandshake × Result Error (List ℕ)
start drawn c = elim drawn [
  | none ↦ (c, err no_random)
  | some nonce ↦ (record c { nonce = nonce }, ok nonce)
]

-- The loop over the fingerprints offered.
unfoldable pub is_known : ℕ → List ℕ → Bool
is_known fp [] = false
is_known fp (offered ∷ rest) = if offered == fp then true else is_known fp rest

-- The part of `OnResPQ` that seals the factors.
unfoldable pub seal_factors : ℕ → ℕ → ℕ → ClientHandshake → Result Error ReqDhParams
seal_factors pq p q c = do
  let inner = marshal_binary (record {
    pq = pq;
    p = p;
    q = q;
    nonce = c.nonce;
    server_nonce = c.server_nonce;
    new_nonce = c.new_nonce;
  })
  sealed ← elim (c.encrypt_oaep inner) [ none ↦ err not_encrypted | some b ↦ ok b ]
  ok (record {
    nonce = c.nonce;
    server_nonce = c.server_nonce;
    p = p;
    q = q;
    rsa_fingerprint = c.fp;
    encrypted_data = sealed;
  })

-- `OnResPQ`; `steps` is the bound of the search for factors, and `drawn` the new nonce.
unfoldable pub on_res_pq :
    ℕ → Option (List ℕ) → ResPq → ClientHandshake → ClientHandshake × Result Error ReqDhParams
on_res_pq steps drawn res c =
    if not (bytes_eq res.nonce c.nonce)
    then (c, err nonce_mismatch)
    else (let c1 = record c { server_nonce = res.server_nonce } in
        if not (is_known c.fp res.rsa_fingerprints)
        then (c1, err unknown_rsa_key)
        else (elim (factor_pq steps res.pq) [
          | err e ↦ (c1, err e)
          | ok (p, q) ↦ elim drawn [
            | none ↦ (c1, err no_random)
            | some new_nonce ↦
                let c2 = record c1 { new_nonce = new_nonce } in (c2, seal_factors res.pq p q c2)
          ]
        ]))

-- `res.Nonce != c.nonce || res.ServerNonce != c.serverNonce`
unfoldable pub check_echo : List ℕ → List ℕ → ClientHandshake → Result Error Unit
check_echo nonce server_nonce c =
    refuse (not (bytes_eq nonce c.nonce) || not (bytes_eq server_nonce c.server_nonce))
      nonce_mismatch

module _ (crypto : Crypto) (json : Json) where
  -- The checks of `OnServerDHParams`, up to the server's public value.
  unfoldable pub check_server_dh : ServerDhParams → ClientHandshake → Result Error ℕ
  check_server_dh res c = do
    check_echo res.nonce res.server_nonce c
    let (key, iv) = tmp_aes_key_iv crypto c.new_nonce c.server_nonce
    plain ← ige_open crypto key iv res.encrypted_answer
    inner ← decode_inner json.unmarshal_server plain
    check_echo inner.nonce inner.server_nonce c
    refuse (not (get_be inner.dh_prime == dh_prime)) bad_dh_value
    refuse (not (inner.g == 2)) bad_dh_value
    validate_dh_value (get_be inner.g_a)
    ok (get_be inner.g_a)

  -- The sealed message of `OnServerDHParams`.
  unfoldable pub seal_public_value :
      (ℕ → Option (List ℕ)) → ℕ → ClientHandshake → Result Error SetClientDhParams
  seal_public_value random b c = do
    plain ← encode_inner json.marshal_client (record {
      nonce = c.nonce;
      server_nonce = c.server_nonce;
      retry_id = 0;
      g_b = big_bytes (exp_mod dh_g b);
    })
    let (key, iv) = tmp_aes_key_iv crypto c.new_nonce c.server_nonce
    sealed ← ige_seal crypto random key iv plain
    ok (record { nonce = c.nonce; server_nonce = c.server_nonce; encrypted_data = sealed })

  -- `OnServerDHParams`
  unfoldable pub on_server_dh_params :
      Option ℕ
      → (ℕ → Option (List ℕ))
      → ServerDhParams
      → ClientHandshake
      → ClientHandshake × Result Error SetClientDhParams
  on_server_dh_params drawn random res c = elim (check_server_dh res c) [
    | err e ↦ (c, err e)
    | ok g_a ↦
        let c1 = record c { g_a = some g_a } in
        elim drawn [
          | none ↦ (c1, err no_random)
          | some r ↦
              let b = r + 2 ^ 20 in
              let c2 = record c1 { b = some b } in (c2, seal_public_value random b c2)
        ]
  ]

  -- `OnDHGenOK`
  unfoldable pub on_dh_gen_ok : DhGenOk → ClientHandshake → Result Error AuthKey
  on_dh_gen_ok res c = do
    check_echo res.nonce res.server_nonce c
    g_a ← elim c.g_a [ none ↦ err handshake_state | some v ↦ ok v ]
    b ← elim c.b [ none ↦ err handshake_state | some v ↦ ok v ]
    key ← new_auth_key crypto (left_pad (big_bytes (exp_mod g_a b)) auth_key_size)
    refuse (not (bytes_eq (new_nonce_hash crypto c.new_nonce 1 key) res.new_nonce_hash))
        key_mismatch
    ok key

-- ===== src/Mtproto/Handshake/Agreement/Values.antt =====
-- The exchange of the public values under the temporary key.
use messaging_app.Prelude.{
  List, Option, ap, arith, ok, refl, some, subst, sym, ℕ, ◌+◌, ◌^◌, ◌∙◌, ◌≡◌,
}
use messaging_app.Mtproto.{Crypto, IsBlock, IsCrypto}
use messaging_app.Mtproto.Handshake.{
  Json, ServerDhParams, SetClientDhParams, decode_inner, encode_inner,
}
use messaging_app.Mtproto.Handshake.Agreement.{Draws}
use messaging_app.Mtproto.Handshake.Agreement.Factored.{check_nonces_same, check_step_open}
use messaging_app.Mtproto.Handshake.Agreement.Honest.{
  IsChallenged, IsClientInner, IsFair, IsJson, IsServerInner, IsUnambiguous, client_inner,
  server_inner,
}
use messaging_app.Mtproto.Handshake.Agreement.Opened.{
  big_bytes-IsByte, dh_prime-IsBlock, get_be_of_value, sealed_opened,
}
use messaging_app.Mtproto.Handshake.Client.{
  ClientHandshake, check_echo, check_server_dh, on_dh_gen_ok, on_server_dh_params,
  seal_public_value,
}
use messaging_app.Mtproto.Handshake.Group.{big_bytes, dh_g, dh_prime, exp_mod}
use messaging_app.Mtproto.Handshake.Group.Bytes.{get_be-big_bytes}
use messaging_app.Mtproto.Handshake.Group.Exponent.{exp_mod_swap}
use messaging_app.Mtproto.Handshake.Inner.{ige_open, ige_seal, new_nonce_hash, tmp_aes_key_iv}
use messaging_app.Mtproto.Handshake.Secret.{key_of, new_auth_key-left_pad}
use messaging_app.Mtproto.Handshake.Server.{
  ServerHandshake, answer_dh, check_client_dh, seal_answer,
}
use messaging_app.Prelude.Bytes.{bytes_eq_refl, get_be}

decode_inner_read :
    {A : Type 0} (unmarshal : List ℕ → Option A) (b : List ℕ) (v : A)
    → unmarshal b ≡ some v
    → decode_inner unmarshal b ≡ ok v
unfolding decode_inner
decode_inner_read unmarshal b v e = rw (decode_inner, e) refl

encode_inner_made :
    {A : Type 0} (marshal : A → Option (List ℕ)) (v : A) (b : List ℕ)
    → marshal v ≡ some b
    → encode_inner marshal v ≡ ok b
unfolding encode_inner
encode_inner_made marshal v b e = rw (encode_inner, e) refl

echo_same :
    (nonce server_nonce : List ℕ) (c : ClientHandshake)
    → nonce ≡ c.nonce
    → server_nonce ≡ c.server_nonce
    → check_echo nonce server_nonce c ≡ ok tt
unfolding check_echo
echo_same nonce server_nonce c e f =
    rw (e, f, bytes_eq_refl c.nonce, bytes_eq_refl c.server_nonce) refl

module _ (crypto : Crypto) (laws : IsCrypto crypto) (json : Json) (json_laws : IsJson json)
    (d : Draws) (h : ServerHandshake) (c : ClientHandshake) (fair : IsFair d h)
    (ready : IsChallenged h c) (unique : IsUnambiguous crypto json d h c) where
  -- The exponents, the states after each side's value, and the messages.
  abbrev pub a_of : ℕ
  a_of = d.server_exponent + 2 ^ 20

  abbrev pub b_of : ℕ
  b_of = d.client_exponent + 2 ^ 20

  abbrev pub server_after : ServerHandshake
  server_after = record h { new_nonce = d.new_nonce; a = a_of; g_a = exp_mod dh_g a_of; step = 2 }

  abbrev pub client_before : ClientHandshake
  client_before = record c { server_nonce = h.server_nonce; new_nonce = d.new_nonce }

  abbrev pub client_after : ClientHandshake
  client_after = record client_before { g_a = some (exp_mod dh_g a_of); b = some b_of }

  abbrev pub params_with : List ℕ → ServerDhParams
  params_with sealed = record {
    nonce = h.nonce;
    server_nonce = h.server_nonce;
    encrypted_answer = sealed;
  }

  abbrev pub value_with : List ℕ → SetClientDhParams
  value_with sealed = record {
    nonce = c.nonce;
    server_nonce = h.server_nonce;
    encrypted_data = sealed;
  }

  abbrev OpensTo : List ℕ → List ℕ → Type 0
  OpensTo sealed plain =
      ige_open crypto ((tmp_aes_key_iv crypto d.new_nonce h.server_nonce).0)
        ((tmp_aes_key_iv crypto d.new_nonce h.server_nonce).1) sealed
      ≡ ok plain

  server_inner-IsServerInner : IsServerInner (server_inner d h)
  server_inner-IsServerInner = record {
    nonce = subst (λ n. IsBlock 16 n) (sym ready.same_nonce) ready.nonce;
    server_nonce = ready.server_nonce;
    g = refl;
    prime = dh_prime-IsBlock;
    g_a = big_bytes-IsByte (exp_mod dh_g a_of);
    time = omega (arith, fair.time_fits);
  }

  client_inner-IsClientInner : IsClientInner (client_inner d h c)
  client_inner-IsClientInner = record {
    nonce = ready.nonce;
    server_nonce = ready.server_nonce;
    retry_id = refl;
    g_b = big_bytes-IsByte (exp_mod dh_g b_of);
  }

  SealsTo : List ℕ → List ℕ → Type 0
  SealsTo plain sealed =
      ige_seal crypto d.random ((tmp_aes_key_iv crypto d.new_nonce h.server_nonce).0)
        ((tmp_aes_key_iv crypto d.new_nonce h.server_nonce).1) plain
      ≡ ok sealed

  answer_dh_sends :
      (sealed plain : List ℕ)
      → json.marshal_server (server_inner d h) ≡ some plain
      → SealsTo plain sealed
      → answer_dh crypto json d.now
          (some d.server_exponent)
          d.random
          (record h { new_nonce = d.new_nonce })
        ≡ (server_after, ok (params_with sealed))
  unfolding answer_dh seal_answer encode_inner SealsTo
  answer_dh_sends sealed plain marshalled closed = rw (answer_dh, marshalled, closed) refl

  -- The server seals its value.
  pub answer_dh_accepts :
      (sealed plain : List ℕ) × (answer_dh crypto json d.now
          (some d.server_exponent)
          d.random
          (record h { new_nonce = d.new_nonce })
        ≡ (server_after, ok (params_with sealed)))
      × OpensTo sealed plain
      × (json.unmarshal_server plain ≡ some (server_inner d h))
  unfolding SealsTo
  answer_dh_accepts =
      let (plain, marshalled, bytes, read) =
        json_laws.server_inverse (server_inner d h) server_inner-IsServerInner in
      let (sealed, closed, opened) =
        sealed_opened crypto laws d h fair h.server_nonce plain bytes
          (unique.server_payload plain marshalled) in
      (sealed, plain, answer_dh_sends sealed plain marshalled closed, opened, read)

  same_echo : check_echo h.nonce h.server_nonce client_before ≡ ok tt
  same_echo = echo_same h.nonce h.server_nonce client_before ready.same_nonce refl

  -- The client accepts it.
  pub check_server_dh_accepts :
      (sealed plain : List ℕ)
      → OpensTo sealed plain
      → json.unmarshal_server plain ≡ some (server_inner d h)
      → check_server_dh crypto json (params_with sealed) client_before ≡ ok (exp_mod dh_g a_of)
  unfolding check_server_dh
  check_server_dh_accepts sealed plain opened read =
      let prime : get_be (big_bytes dh_prime) ≡ dh_prime =
        get_be-big_bytes dh_prime (omega arith) in
      rw
        (
          same_echo,
          opened,
          decode_inner_read json.unmarshal_server plain (server_inner d h) read,
          same_echo,
          prime,
          get_be_of_value dh_g a_of,
          fair.server_value,
        )
        refl

  seal_public_value_sends :
      (sealed plain : List ℕ)
      → json.marshal_client (client_inner d h c) ≡ some plain
      → SealsTo plain sealed
      → seal_public_value crypto json d.random b_of client_after ≡ ok (value_with sealed)
  unfolding seal_public_value SealsTo
  seal_public_value_sends sealed plain marshalled closed =
      rw (encode_inner_made json.marshal_client (client_inner d h c) plain marshalled, closed) refl

  on_server_dh_params_sends :
      (sealed plain answer : List ℕ)
      → check_server_dh crypto json (params_with answer) client_before ≡ ok (exp_mod dh_g a_of)
      → json.marshal_client (client_inner d h c) ≡ some plain
      → SealsTo plain sealed
      → on_server_dh_params crypto json
          (some d.client_exponent)
          d.random
          (params_with answer)
          client_before
        ≡ (client_after, ok (value_with sealed))
  unfolding on_server_dh_params
  on_server_dh_params_sends sealed plain answer checked marshalled closed =
      rw (on_server_dh_params, checked, seal_public_value_sends sealed plain marshalled closed) refl

  -- The client seals its own.
  pub on_server_dh_params_accepts :
      (answer : List ℕ)
      → check_server_dh crypto json (params_with answer) client_before ≡ ok (exp_mod dh_g a_of)
      → (sealed plain : List ℕ) × (on_server_dh_params crypto json
            (some d.client_exponent)
            d.random
            (params_with answer)
            client_before
          ≡ (client_after, ok (value_with sealed)))
        × OpensTo sealed plain
        × (json.unmarshal_client plain ≡ some (client_inner d h c))
  unfolding SealsTo
  on_server_dh_params_accepts answer checked =
      let (plain, marshalled, bytes, read) =
        json_laws.client_inverse (client_inner d h c) client_inner-IsClientInner in
      let (sealed, closed, opened) =
        sealed_opened crypto laws d h fair h.server_nonce plain bytes
          (unique.client_payload plain marshalled) in
      (
        sealed,
        plain,
        on_server_dh_params_sends sealed plain answer checked marshalled closed,
        opened,
        read,
      )

  -- The server accepts that.
  pub check_client_dh_accepts :
      (sealed plain : List ℕ)
      → OpensTo sealed plain
      → json.unmarshal_client plain ≡ some (client_inner d h c)
      → check_client_dh crypto json d.now (value_with sealed) server_after ≡ ok (exp_mod dh_g b_of)
  unfolding check_client_dh
  check_client_dh_accepts sealed plain opened read =
      let nonces =
        check_nonces_same c.nonce h.server_nonce server_after (sym ready.same_nonce) refl in
      rw
        (
          check_step_open d.now 2 server_after refl fair.in_time,
          nonces,
          opened,
          decode_inner_read json.unmarshal_client plain (client_inner d h c) read,
          nonces,
          get_be_of_value dh_g b_of,
          fair.client_value,
        )
        refl

  -- And the client the confirmation.
  pub on_dh_gen_ok_accepts :
      on_dh_gen_ok crypto json
        (record {
          nonce = h.nonce;
          server_nonce = h.server_nonce;
          new_nonce_hash =
              new_nonce_hash crypto d.new_nonce 1
                (key_of crypto (exp_mod (exp_mod dh_g b_of) a_of));
        })
        client_after
      ≡ ok (key_of crypto (exp_mod (exp_mod dh_g b_of) a_of))
  unfolding on_dh_gen_ok
  on_dh_gen_ok_accepts =
      let echo = echo_same h.nonce h.server_nonce client_after ready.same_nonce refl in
      let made =
        new_auth_key-left_pad crypto (exp_mod (exp_mod dh_g a_of) b_of)
        ∙ ap (λ n. ok (key_of crypto n)) (exp_mod_swap dh_g b_of a_of) in
      let confirmed =
        bytes_eq_refl (
          new_nonce_hash crypto d.new_nonce 1 (key_of crypto (exp_mod (exp_mod dh_g b_of) a_of))) in
      rw (echo, made, confirmed) refl

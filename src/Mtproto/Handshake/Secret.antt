-- ===== src/Mtproto/Handshake/Secret.antt =====
-- The auth key that the server's half ends with.
use messaging_app.Prelude.{
  List, Option, Option-cases, Result, Result-cases, ap, arith, err, inl, inr, ok, refl, some, subst,
  sym, true, ℕ, ◌-◌, ◌^◌, ◌∙◌, ◌≡◌, ◌≢◌, ◌≤◌,
}
use messaging_app.Mtproto.{Crypto, Error}
use messaging_app.Mtproto.Handshake.{
  ClientDhInnerData, DhGenOk, Json, SetClientDhParams, decode_inner,
}
use messaging_app.Mtproto.Handshake.Group.{
  big_bytes, dh_prime, exp_mod, left_pad, validate_dh_value,
}
use messaging_app.Mtproto.Handshake.Group.Bytes.{left_pad-big_bytes}
use messaging_app.Mtproto.Handshake.Inner.{ige_open, new_nonce_hash, tmp_aes_key_iv}
use messaging_app.Mtproto.Handshake.Phases.{check_step_inverse}
use messaging_app.Mtproto.Handshake.Server.{
  ServerHandshake, check_client_dh, check_nonces, check_step, confirm, is_done,
  set_client_dh_params,
}
use messaging_app.Mtproto.Keys.{AuthKey, derive_key_id, new_auth_key}
use messaging_app.Prelude.Bytes.{bytes_eq_sound, get_be, length-put_be, put_be}

-- The key that `NewAuthKey` makes of a shared secret.
unfoldable pub key_of : Crypto → ℕ → AuthKey
key_of crypto secret = record {
  raw = put_be 256 secret;
  id = derive_key_id crypto (put_be 256 secret);
}

pub new_auth_key-left_pad :
    (crypto : Crypto) (secret : ℕ)
    → new_auth_key crypto (left_pad (big_bytes secret) 256) ≡ ok (key_of crypto secret)
unfolding new_auth_key key_of
new_auth_key-left_pad crypto secret = rw (left_pad-big_bytes secret, length-put_be 256 secret) refl

-- The confirmation, once the client's value is accepted.
pub confirm_lem :
    (crypto : Crypto) (json : Json) (h : ServerHandshake)
    → confirm crypto json h ≡ (
      record h { step = 3 },
      ok (
        key_of crypto (exp_mod h.g_b h.a),
        record {
          nonce = h.nonce;
          server_nonce = h.server_nonce;
          new_nonce_hash = new_nonce_hash crypto h.new_nonce 1 (key_of crypto (exp_mod h.g_b h.a));
        },
      ),
    )
unfolding confirm
confirm_lem crypto json h = rw (confirm, new_auth_key-left_pad crypto (exp_mod h.g_b h.a)) refl

validate_dh_value_sound :
    (v : ℕ) → validate_dh_value v ≡ ok tt → (2 ^ 1984 ≤ v) × (v ≤ dh_prime - 2 ^ 1984)
unfolding validate_dh_value
validate_dh_value_sound v e = (ground arith, ground arith)

-- What the client sealed under the temporary key of the handshake.
abbrev pub SealedIn :
    Crypto → Json → ServerHandshake → SetClientDhParams → ClientDhInnerData → Type 0
SealedIn crypto json h req inner =
    (plain : List ℕ) × (ige_open crypto ((tmp_aes_key_iv crypto h.new_nonce h.server_nonce).0)
        ((tmp_aes_key_iv crypto h.new_nonce h.server_nonce).1) req.encrypted_data
      ≡ ok plain)
    × (json.unmarshal_client plain ≡ some inner)

decode_inner_sound :
    {A : Type 0} (unmarshal : List ℕ → Option A) (b : List ℕ) (v : A)
    → decode_inner unmarshal b ≡ ok v
    → unmarshal b ≡ some v
unfolding decode_inner
decode_inner_sound unmarshal b v e = elim (Option-cases (unmarshal b)) [
  | inl bad ↦ absurd (cc)
  | inr (w, read) ↦ cc
]

-- The checks that an accepted value has passed, and where it comes from.
check_client_dh_sound :
    (crypto : Crypto) (json : Json) (now : ℕ) (req : SetClientDhParams) (h : ServerHandshake)
    (v : ℕ)
    → check_client_dh crypto json now req h ≡ ok v
    → (check_step now 2 h ≡ ok tt)
      × (check_nonces req.nonce req.server_nonce h ≡ ok tt)
      × (validate_dh_value v ≡ ok tt)
      × (inner : ClientDhInnerData) × SealedIn crypto json h req inner
      × (check_nonces inner.nonce inner.server_nonce h ≡ ok tt)
      × (v ≡ get_be inner.g_b)
unfolding check_client_dh
check_client_dh_sound crypto json now req h v e =
    let keys = tmp_aes_key_iv crypto h.new_nonce h.server_nonce in
    elim (Result-cases (ige_open crypto keys.0 keys.1 req.encrypted_data)) [
      | inl (x, shut) ↦ absurd (ground arith)
      | inr (plain, opened) ↦ elim (Result-cases (decode_inner json.unmarshal_client plain)) [
        | inl (x, garbled) ↦ absurd (ground arith)
        | inr (inner, decoded) ↦ (
          ground arith,
          ground arith,
          ground arith,
          inner,
          (plain, opened, decode_inner_sound json.unmarshal_client plain inner decoded),
          ground arith,
          ground arith,
        )
      ]
    ]

check_nonces_sound :
    (nonce server_nonce : List ℕ) (h : ServerHandshake)
    → check_nonces nonce server_nonce h ≡ ok tt
    → (nonce ≡ h.nonce) × (server_nonce ≡ h.server_nonce)
unfolding check_nonces
check_nonces_sound nonce server_nonce h e = (
  bytes_eq_sound nonce h.nonce (ground arith),
  bytes_eq_sound server_nonce h.server_nonce (ground arith),
)

-- The whole third step, accepted and refused.
pub set_client_dh_params_accepted :
    (crypto : Crypto) (json : Json) (now : ℕ) (req : SetClientDhParams) (h : ServerHandshake)
    (v : ℕ)
    → check_client_dh crypto json now req h ≡ ok v
    → set_client_dh_params crypto json now req h ≡ (
      record h { g_b = v; step = 3 },
      ok (
        key_of crypto (exp_mod v h.a),
        record {
          nonce = h.nonce;
          server_nonce = h.server_nonce;
          new_nonce_hash = new_nonce_hash crypto h.new_nonce 1 (key_of crypto (exp_mod v h.a));
        },
      ),
    )
unfolding set_client_dh_params
set_client_dh_params_accepted crypto json now req h v passed =
    rw (set_client_dh_params, passed) (confirm_lem crypto json (record h { g_b = v }))

set_client_dh_params_refused :
    (crypto : Crypto) (json : Json) (now : ℕ) (req : SetClientDhParams) (h : ServerHandshake)
    (bad : Error)
    → check_client_dh crypto json now req h ≡ err bad
    → set_client_dh_params crypto json now req h ≡ (h, err bad)
unfolding set_client_dh_params
set_client_dh_params_refused crypto json now req h bad refused =
    rw (set_client_dh_params, refused) refl

key_of_raw :
    (crypto : Crypto) (n : ℕ) (key : AuthKey) → key_of crypto n ≡ key → key.raw ≡ put_be 256 n
unfolding key_of
key_of_raw crypto n key e = sym (ap (λ k. k.raw) e)

refused_apart :
    {A B : Type 0} (p q : A × Result Error B) (bad : Error) (b : B)
    → p.1 ≡ err bad
    → q.1 ≡ ok b
    → p ≢ q
refused_apart p q bad b hp hq same = let e = ap (λ r. r.1) same in cc

accepted_same :
    {A B : Type 0} (p q : A × Result Error B) (a b : B) → p.1 ≡ ok a → q.1 ≡ ok b → p ≡ q → a ≡ b
accepted_same p q a b hp hq same = let e = ap (λ r. r.1) same in cc

-- A key comes only in the third step and in time, for a request with both nonces of the handshake. The
-- request opens under the temporary key to inner data that bear both nonces too, and whose g_b, read
-- with its highest byte first, is 2^1984 or more and at most p - 2^1984. The key is that number to
-- the power of the server's exponent, modulo p, in 256 bytes, its hash with the new nonce goes to
-- the client, and the handshake is done.
pub set_client_dh_params_key :
    (crypto : Crypto) (json : Json) (now : ℕ) (req : SetClientDhParams) (h h' : ServerHandshake)
    (key : AuthKey) (sent : DhGenOk)
    → set_client_dh_params crypto json now req h ≡ (h', ok (key, sent))
    → ((h.step ≡ 2) × (now ≤ h.deadline))
      × ((req.nonce ≡ h.nonce) × (req.server_nonce ≡ h.server_nonce))
      × (inner : ClientDhInnerData) × SealedIn crypto json h req inner
      × ((inner.nonce ≡ h.nonce) × (inner.server_nonce ≡ h.server_nonce))
      × ((2 ^ 1984 ≤ get_be inner.g_b) × (get_be inner.g_b ≤ dh_prime - 2 ^ 1984))
      × (key.raw ≡ put_be 256 (exp_mod (get_be inner.g_b) h.a))
      × (sent.new_nonce_hash ≡ new_nonce_hash crypto h.new_nonce 1 key)
      × (is_done h' ≡ true)
unfolding is_done
set_client_dh_params_key crypto json now req h h' key sent e =
    elim (Result-cases (check_client_dh crypto json now req h)) [
      | inl (bad, refused) ↦
          let same = set_client_dh_params_refused crypto json now req h bad refused in
          absurd (
            refused_apart (h, err bad) (h', ok (key, sent)) bad (key, sent) refl refl
              (sym same ∙ e))
      | inr (v, passed) ↦
          let (opened, nonces, valid, inner, sealed, echoed, value) =
            check_client_dh_sound crypto json now req h v passed in
          let same = sym (set_client_dh_params_accepted crypto json now req h v passed) ∙ e in
          let state : record h { g_b = v; step = 3 } ≡ h' = ap (λ p. p.0) same in
          let result = accepted_same _ (h', ok (key, sent)) _ (key, sent) refl refl same in
          let made : key_of crypto (exp_mod v h.a) ≡ key = ap (λ p. p.0) result in
          let hash = ap (λ p. p.1.new_nonce_hash) result in
          (
            check_step_inverse now 2 h opened,
            check_nonces_sound req.nonce req.server_nonce h nonces,
            inner,
            sealed,
            check_nonces_sound inner.nonce inner.server_nonce h echoed,
            subst (λ n. (2 ^ 1984 ≤ n) × (n ≤ dh_prime - 2 ^ 1984)) value
                (validate_dh_value_sound v valid),
            key_of_raw crypto (exp_mod v h.a) key made ∙ ap (λ n. put_be 256 (exp_mod n h.a)) value,
            sym hash ∙ ap (new_nonce_hash crypto h.new_nonce 1) made,
            subst (λ x. is_done x ≡ true) state refl,
          )
    ]

-- ===== src/Mtproto/Handshake/Agreement/Honest.antt =====
-- What a handshake with nobody in between relies on.
use messaging_app.Prelude.{List, [], length, ok, some, ℕ, ◌+◌, ◌/◌, ◌<◌, ◌^◌, ◌∷◌, ◌≡◌, ◌≤◌}
use messaging_app.Mtproto.{Crypto, IsBlock}
use messaging_app.Mtproto.Handshake.{ClientDhInnerData, Json, ResPq, ServerDhInnerData}
use messaging_app.Mtproto.Handshake.Agreement.{Draws}
use messaging_app.Mtproto.Handshake.Client.{ClientHandshake}
use messaging_app.Mtproto.Handshake.Group.{big_bytes, dh_g, dh_prime, exp_mod, validate_dh_value}
use messaging_app.Mtproto.Handshake.Inner.RoundTrip.{NoShorterPadding, pad_of}
use messaging_app.Mtproto.Handshake.Server.{ServerHandshake, ServerKey}
use messaging_app.Prelude.Bytes.{All, IsByte}

-- Inner data that the code builds: nonces of 16 bytes, a prime of 256 bytes and a positive time.
pub record IsServerInner (d : ServerDhInnerData) : Type 0 where
  pub nonce : IsBlock 16 d.nonce
  pub server_nonce : IsBlock 16 d.server_nonce
  pub g : d.g ≡ 2
  pub prime : IsBlock 256 d.dh_prime
  pub g_a : All IsByte d.g_a
  pub time : d.server_time < 2 ^ 63

pub record IsClientInner (d : ClientDhInnerData) : Type 0 where
  pub nonce : IsBlock 16 d.nonce
  pub server_nonce : IsBlock 16 d.server_nonce
  pub retry_id : d.retry_id ≡ 0
  pub g_b : All IsByte d.g_b

-- encoding/json: what is marshalled is bytes, and is read back.
pub record IsJson (json : Json) : Type 0 where
  pub server_inverse :
      (d : ServerDhInnerData)
      → IsServerInner d
      → (b : List ℕ) × (json.marshal_server d ≡ some b)
        × All IsByte b
        × (json.unmarshal_server b ≡ some d)
  pub client_inverse :
      (d : ClientDhInnerData)
      → IsClientInner d
      → (b : List ℕ) × (json.marshal_client d ≡ some b)
        × All IsByte b
        × (json.unmarshal_client b ≡ some d)

-- crypto/rsa: the client has pinned the server's key, and what is encrypted under it is decrypted.
pub record IsKeyPair (key : ServerKey) (c : ClientHandshake) : Type 0 where
  pub same_fingerprint : c.fp ≡ key.fingerprint
  pub inverse :
      (m : List ℕ)
      → length m ≡ 88
      → (b : List ℕ) × (c.encrypt_oaep m ≡ some b) × (key.decrypt_oaep b ≡ some m)

-- The challenge that the server has sent.
abbrev pub challenge_of : ServerKey → ServerHandshake → ResPq
challenge_of key h = record {
  nonce = h.nonce;
  server_nonce = h.server_nonce;
  pq = h.pq;
  rsa_fingerprints = key.fingerprint ∷ [];
}

-- The two sides after the challenge.
pub record IsChallenged (h : ServerHandshake) (c : ClientHandshake) : Type 0 where
  pub in_step : h.step ≡ 1
  pub same_nonce : h.nonce ≡ c.nonce
  pub nonce : IsBlock 16 c.nonce
  pub server_nonce : IsBlock 16 h.server_nonce
  pub pq_fits : h.pq < 2 ^ 64

-- The draws are of their sizes, in time, and their public values are in the range that is accepted.
pub record IsFair (d : Draws) (h : ServerHandshake) : Type 0 where
  pub new_nonce : IsBlock 32 d.new_nonce
  pub in_time : d.now ≤ h.deadline
  pub time_fits : d.now < 2 ^ 63
  pub server_value : validate_dh_value (exp_mod dh_g (d.server_exponent + 2 ^ 20)) ≡ ok tt
  pub client_value : validate_dh_value (exp_mod dh_g (d.client_exponent + 2 ^ 20)) ≡ ok tt
  pub padding : (n : ℕ) → (bs : List ℕ) × (d.random n ≡ some bs) × IsBlock n bs

-- The inner data that the server seals, and those that the client seals.
abbrev pub server_inner : Draws → ServerHandshake → ServerDhInnerData
server_inner d h = record {
  nonce = h.nonce;
  server_nonce = h.server_nonce;
  g = 2;
  dh_prime = big_bytes dh_prime;
  g_a = big_bytes (exp_mod dh_g (d.server_exponent + 2 ^ 20));
  server_time = d.now / 1000000000;
}

abbrev pub client_inner : Draws → ServerHandshake → ClientHandshake → ClientDhInnerData
client_inner d h c = record {
  nonce = c.nonce;
  server_nonce = h.server_nonce;
  retry_id = 0;
  g_b = big_bytes (exp_mod dh_g (d.client_exponent + 2 ^ 20));
}

-- The digest tells one payload from that payload with more of the padding that is drawn for it.
abbrev pub IsToldApart : Crypto → Draws → List ℕ → Type 0
IsToldApart crypto d payload =
    (padding : List ℕ)
    → d.random (pad_of payload) ≡ some padding
    → NoShorterPadding crypto payload padding

-- That is so of the two payloads of this handshake. SHA-1 does not promise it: where a digest of a
-- payload with more of its padding were the payload's, the longest cut would be taken for it.
pub record IsUnambiguous (crypto : Crypto) (json : Json) (d : Draws) (h : ServerHandshake)
    (c : ClientHandshake) : Type 0 where
  pub server_payload :
      (b : List ℕ) → json.marshal_server (server_inner d h) ≡ some b → IsToldApart crypto d b
  pub client_payload :
      (b : List ℕ) → json.marshal_client (client_inner d h c) ≡ some b → IsToldApart crypto d b

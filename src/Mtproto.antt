-- ===== src/Mtproto.antt =====
-- pkg/mtproto: the proof of work, the cipher mode, keys, envelopes and message identifiers.
pub mod Ige
pub mod Keys
pub mod Envelope
pub mod MsgId
pub mod Pq
pub mod Tl
pub mod Handshake
mod Tests
-- `ErrBlockSize`, `ErrIVSize`, a key that `aes.NewCipher` refuses, and the errors of message.go,
-- pq.go, handshake.go and tl.go.
use messaging_app.Prelude.{List, length, ℕ, ◌≡◌}
use messaging_app.Prelude.Bytes.{All, IsByte}

pub data Error : Type 0 where
  bad_block_size bad_iv_size bad_key_size : Error
  short_frame unknown_auth_key bad_length bad_padding bad_msg_key body_too_large no_random : Error
  msg_id_too_old msg_id_too_new msg_id_replay msg_id_parity : Error
  not_factors too_small_to_factor not_factored no_semiprime : Error
  nonce_mismatch unknown_rsa_key bad_dh_value handshake_state handshake_expired : Error
  short_payload : Error
  bad_inner_size not_decrypted not_encrypted bad_json inner_mismatch bad_digest key_mismatch : Error

-- The functions of Go's crypto packages that the code calls: the digests, and AES on one block,
-- given the key and then the block.
pub record Crypto : Type 0 where
  pub sha256 : List ℕ → List ℕ
  pub sha1 : List ℕ → List ℕ
  pub aes_encrypt : List ℕ → List ℕ → List ℕ
  pub aes_decrypt : List ℕ → List ℕ → List ℕ

-- A list of `n` bytes.
pub record IsBlock (n : ℕ) (bs : List ℕ) : Type 0 where
  pub size : length bs ≡ n
  pub bytes : All IsByte bs

-- What the packages document: digests of 32 and 20 bytes, and decryption inverts encryption.
pub record IsCrypto (c : Crypto) : Type 0 where
  pub sha256_size : (m : List ℕ) → IsBlock 32 (c.sha256 m)
  pub sha1_size : (m : List ℕ) → IsBlock 20 (c.sha1 m)
  pub aes_size : (key b : List ℕ) → IsBlock 16 b → IsBlock 16 (c.aes_encrypt key b)
  pub aes_inverse : (key b : List ℕ) → IsBlock 16 b → c.aes_decrypt key (c.aes_encrypt key b) ≡ b

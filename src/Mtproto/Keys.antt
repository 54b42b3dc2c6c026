-- ===== src/Mtproto/Keys.antt =====
-- pkg/mtproto/keys.go: the auth key, its id, the message key and the key schedule.
use messaging_app.Prelude.{
  List, Result, arith, drop, length, length-append, length-drop, not, ok, refl, refuse, replicate,
  ℕ, ◌++◌, ◌+◌, ◌==◌, ◌>>◌, ◌≡◌, ◌≤◌,
}
use messaging_app.Mtproto.{Crypto, Error, IsBlock, IsCrypto, bad_length, bad_msg_key}
use messaging_app.Mtproto.Ige.RoundTrip.{IsBlock-take}
use messaging_app.Prelude.Bytes.{All-append, All-drop, IsByte, bytes_eq, get_le, slice}

-- `Direction`
pub data Direction : Type 0 where
  client_to_server server_to_client : Direction

-- `x`
unfoldable pub x_of : Direction → ℕ
x_of client_to_server = 0
x_of server_to_client = 8

-- `Opposite`
unfoldable pub opposite : Direction → Direction
opposite client_to_server = server_to_client
opposite server_to_client = client_to_server

-- `AuthKeySize`
abbrev pub auth_key_size : ℕ
auth_key_size = 256

pub record AuthKey : Type 0 where
  pub raw : List ℕ
  pub id : ℕ

-- `deriveKeyID`
unfoldable pub derive_key_id : Crypto → List ℕ → ℕ
derive_key_id crypto key = get_le (slice 12 8 (crypto.sha1 key))

-- `NewAuthKey`
unfoldable pub new_auth_key : Crypto → List ℕ → Result Error AuthKey
new_auth_key crypto raw = do
  refuse (not (length raw == auth_key_size)) bad_length
  ok (record { raw = raw; id = derive_key_id crypto raw })

-- `MsgKey`
unfoldable pub msg_key : Crypto → AuthKey → List ℕ → Direction → List ℕ
msg_key crypto k plaintext d =
    slice 8 16 (crypto.sha256 (slice (88 + x_of d) 32 k.raw ++ plaintext))

-- `DeriveAESKeyIV`: the 32 bytes of the key and the 32 bytes of the IV.
unfoldable pub derive_aes_key_iv :
    Crypto → AuthKey → List ℕ → Direction → Result Error (List ℕ × List ℕ)
derive_aes_key_iv crypto k mk d = do
  refuse (not (length mk == 16)) bad_msg_key
  let a = crypto.sha256 (mk ++ slice (x_of d) 36 k.raw)
  let b = crypto.sha256 (slice (40 + x_of d) 36 k.raw ++ mk)
  ok (slice 0 8 a ++ (slice 8 16 b ++ slice 24 8 a), slice 0 8 b ++ (slice 8 16 a ++ slice 24 8 b))

-- `VerifyMsgKey`
unfoldable pub verify_msg_key : Crypto → AuthKey → List ℕ → List ℕ → Direction → Result Error Unit
verify_msg_key crypto k plaintext mk d =
    refuse (not (bytes_eq (msg_key crypto k plaintext d) mk)) bad_msg_key

-- `Zero`
unfoldable pub wipe : AuthKey → AuthKey
wipe k = record { raw = replicate (length k.raw) 0; id = 0 }

pub slice-IsBlock : (i n m : ℕ) (xs : List ℕ) → IsBlock m xs → i + n ≤ m → IsBlock n (slice i n xs)
unfolding slice
slice-IsBlock i n m xs h fits =
    IsBlock-take n (drop i xs) (omega (arith, length-drop i xs, h.size))
      (All-drop IsByte i xs h.bytes)

pub IsBlock-append :
    (n m : ℕ) (xs ys : List ℕ) → IsBlock n xs → IsBlock m ys → IsBlock (n + m) (xs ++ ys)
IsBlock-append n m xs ys hx hy = record {
  size = omega (arith, length-append xs ys, hx.size, hy.size);
  bytes = All-append IsByte xs ys hx.bytes hy.bytes;
}

pub msg_key-IsBlock :
    (crypto : Crypto)
    → IsCrypto crypto
    → (k : AuthKey) (plaintext : List ℕ) (d : Direction) → IsBlock 16 (msg_key crypto k plaintext d)
unfolding msg_key
msg_key-IsBlock crypto laws k plaintext d =
    let m = slice (88 + x_of d) 32 k.raw ++ plaintext in
    slice-IsBlock 8 16 32 (crypto.sha256 m) (laws.sha256_size m) (omega arith)

interleave-IsBlock :
    (crypto : Crypto)
    → IsCrypto crypto
    → (m m' : List ℕ)
    → IsBlock 32 (
        slice 0 8 (crypto.sha256 m)
        ++ (slice 8 16 (crypto.sha256 m') ++ slice 24 8 (crypto.sha256 m)))
interleave-IsBlock crypto laws m m' =
    let a = crypto.sha256 m in
    let b = crypto.sha256 m' in
    let ha = laws.sha256_size m in
    let hb = laws.sha256_size m' in
    IsBlock-append 8 24 (slice 0 8 a) (slice 8 16 b ++ slice 24 8 a)
      (slice-IsBlock 0 8 32 a ha (omega arith))
      (IsBlock-append 16 8 (slice 8 16 b) (slice 24 8 a) (slice-IsBlock 8 16 32 b hb (omega arith))
        (slice-IsBlock 24 8 32 a ha (omega arith)))

-- The key schedule gives a key and an IV of the sizes that the cipher takes.
pub derive_aes_key_iv_total :
    (crypto : Crypto)
    → IsCrypto crypto
    → (k : AuthKey) (mk : List ℕ) (d : Direction) → length mk ≡ 16
    → (key : List ℕ) × (iv : List ℕ) × (derive_aes_key_iv crypto k mk d ≡ ok (key, iv))
      × IsBlock 32 key
      × IsBlock 32 iv
unfolding derive_aes_key_iv
derive_aes_key_iv_total crypto laws k mk d size =
    let ma = mk ++ slice (x_of d) 36 k.raw in
    let mb = slice (40 + x_of d) 36 k.raw ++ mk in
    let mixed = interleave-IsBlock crypto laws in
    (
      slice 0 8 (crypto.sha256 ma)
          ++ (slice 8 16 (crypto.sha256 mb) ++ slice 24 8 (crypto.sha256 ma)),
      slice 0 8 (crypto.sha256 mb)
          ++ (slice 8 16 (crypto.sha256 ma) ++ slice 24 8 (crypto.sha256 mb)),
      rw size refl,
      mixed ma mb,
      mixed mb ma,
    )

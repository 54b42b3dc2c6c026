-- ===== src/Mtproto/Ige.antt =====
-- pkg/mtproto/ige.go: AES in infinite garble extension mode.
pub mod RoundTrip
use messaging_app.Prelude.{
  List, Result, [], drop, length, not, ok, refuse, suc, take, zero, ℕ, ◌%◌, ◌&&◌, ◌*◌, ◌++◌, ◌/◌,
  ◌==◌, ◌>>=◌, ◌>>◌, ◌||◌, ◌∷◌,
}
use messaging_app.Mtproto.{Crypto, Error, bad_block_size, bad_iv_size, bad_key_size}
use messaging_app.Prelude.Bits.{xor_bits}

-- `blockSize`, and `igeIVSize`
abbrev pub block_size : ℕ
block_size = 16

abbrev pub ige_iv_size : ℕ
ige_iv_size = 2 * block_size

-- `xorBytes`
unfoldable pub xor_bytes : List ℕ → List ℕ → List ℕ
xor_bytes [] ys = []
xor_bytes (a ∷ xs) [] = []
xor_bytes (a ∷ xs) (b ∷ ys) = xor_bits 8 a b ∷ xor_bytes xs ys

-- `newBlock`'s tests; `aes.NewCipher` takes keys of 16, 24 and 32 bytes.
unfoldable pub check_sizes : List ℕ → List ℕ → List ℕ → Result Error Unit
check_sizes key iv src = do
  refuse (not (length iv == ige_iv_size)) bad_iv_size
  refuse (length src == 0 || not (length src % block_size == 0)) bad_block_size
  refuse (not (length key == 16) && (not (length key == 24) && not (length key == 32))) bad_key_size

module _ (crypto : Crypto) (key : List ℕ) where
  -- The loop of `IGEEncrypt` over `n` blocks, with `prevCipher` and `prevPlain`.
  unfoldable pub encrypt_blocks : ℕ → List ℕ → List ℕ → List ℕ → List ℕ
  encrypt_blocks zero prev_cipher prev_plain src = []
  encrypt_blocks (suc n) prev_cipher prev_plain src =
      let plain = take block_size src in
      let out = xor_bytes (crypto.aes_encrypt key (xor_bytes plain prev_cipher)) prev_plain in
      out ++ encrypt_blocks n out plain (drop block_size src)

  -- The loop of `IGEDecrypt`
  unfoldable pub decrypt_blocks : ℕ → List ℕ → List ℕ → List ℕ → List ℕ
  decrypt_blocks zero prev_cipher prev_plain src = []
  decrypt_blocks (suc n) prev_cipher prev_plain src =
      let ciph = take block_size src in
      let out = xor_bytes (crypto.aes_decrypt key (xor_bytes ciph prev_plain)) prev_cipher in
      out ++ decrypt_blocks n ciph out (drop block_size src)

-- `IGEEncrypt`
unfoldable pub ige_encrypt : Crypto → List ℕ → List ℕ → List ℕ → Result Error (List ℕ)
ige_encrypt crypto key iv src = do
  check_sizes key iv src
  ok (
      encrypt_blocks crypto key (length src / block_size) (take block_size iv) (drop block_size iv)
        src)

-- `IGEDecrypt`
unfoldable pub ige_decrypt : Crypto → List ℕ → List ℕ → List ℕ → Result Error (List ℕ)
ige_decrypt crypto key iv src = do
  check_sizes key iv src
  ok (
      decrypt_blocks crypto key (length src / block_size) (take block_size iv) (drop block_size iv)
        src)

-- ===== src/Mtproto/Ige/RoundTrip.antt =====
-- Decryption in infinite garble extension mode inverts encryption.
use messaging_app.Prelude.{
  List, [], ap, arith, drop, drop-append, length, length-append, length-drop, length-take, ok, refl,
  suc, sym, take, take-append, take-append-drop, zero, ℕ, ◌%◌, ◌*◌, ◌/◌, ◌<◌, ◌∙◌, ◌∷◌, ◌≡◌, ◌≤◌,
}
use messaging_app.Mtproto.{Crypto, IsBlock, IsCrypto}
use messaging_app.Mtproto.Ige.{
  check_sizes, decrypt_blocks, encrypt_blocks, ige_decrypt, ige_encrypt, xor_bytes,
}
use messaging_app.Prelude.Bits.{xor_bits-lt, xor_bits_cancel}
use messaging_app.Prelude.Bytes.{All, All-append, All-drop, All-take, IsByte}

length-xor_bytes : (xs ys : List ℕ) → length xs ≡ length ys → length (xor_bytes xs ys) ≡ length xs
unfolding xor_bytes
length-xor_bytes [] ys e = refl
length-xor_bytes (a ∷ xs) [] e = ground arith
length-xor_bytes (a ∷ xs) (b ∷ ys) e = ap suc (length-xor_bytes xs ys (omega (arith, e)))

xor_bytes-IsByte : (xs ys : List ℕ) → All IsByte (xor_bytes xs ys)
unfolding xor_bytes
xor_bytes-IsByte [] ys = tt
xor_bytes-IsByte (a ∷ xs) [] = tt
xor_bytes-IsByte (a ∷ xs) (b ∷ ys) = (omega (arith, xor_bits-lt 8 a b), xor_bytes-IsByte xs ys)

xor_bytes_cancel :
    (xs ys : List ℕ) → All IsByte xs → length xs ≡ length ys → xor_bytes (xor_bytes xs ys) ys ≡ xs
unfolding xor_bytes
xor_bytes_cancel [] ys h e = refl
xor_bytes_cancel (a ∷ xs) [] h e = ground arith
xor_bytes_cancel (a ∷ xs) (b ∷ ys) h e =
    rw (xor_bits_cancel 8 a b (omega (arith, h.0)))
      (ap (λ l. a ∷ l) (xor_bytes_cancel xs ys h.1 (omega (arith, e))))

xor_bytes-IsBlock :
    (n : ℕ) (xs ys : List ℕ) → IsBlock n xs → IsBlock n ys → IsBlock n (xor_bytes xs ys)
xor_bytes-IsBlock n xs ys ha hb = record {
  size = length-xor_bytes xs ys (ha.size ∙ sym hb.size) ∙ ha.size;
  bytes = xor_bytes-IsByte xs ys;
}

pub IsBlock-take : (n : ℕ) (ys : List ℕ) → n ≤ length ys → All IsByte ys → IsBlock n (take n ys)
IsBlock-take n ys h all = record {
  size = omega (arith, length-take n ys, h);
  bytes = All-take IsByte n ys all;
}

module _ (crypto : Crypto) (laws : IsCrypto crypto) (key : List ℕ) where
  -- The two loops, in step: both leave the same ciphertext and plaintext block for the next turn.
  decrypt_blocks-encrypt_blocks :
      (n : ℕ) (c p src : List ℕ)
      → IsBlock 16 c
      → IsBlock 16 p
      → length src ≡ n * 16
      → All IsByte src
      → decrypt_blocks crypto key n c p (encrypt_blocks crypto key n c p src) ≡ src
  unfolding decrypt_blocks encrypt_blocks
  decrypt_blocks-encrypt_blocks zero c p [] hc hp size bytes = refl
  decrypt_blocks-encrypt_blocks zero c p (x ∷ src) hc hp size bytes = absurd (omega arith)
  decrypt_blocks-encrypt_blocks (suc n) c p src hc hp size bytes =
      let x = take 16 src in
      let hx : IsBlock 16 x = IsBlock-take 16 src (omega (arith, size)) bytes in
      let mixed = xor_bytes-IsBlock 16 x c hx hc in
      let e = crypto.aes_encrypt key (xor_bytes x c) in
      let he = laws.aes_size key (xor_bytes x c) mixed in
      let y = xor_bytes e p in
      let hy = xor_bytes-IsBlock 16 e p he hp in
      let rest = encrypt_blocks crypto key n y x (drop 16 src) in
      let out : xor_bytes (crypto.aes_decrypt key (xor_bytes y p)) c ≡ x =
        rw (xor_bytes_cancel e p he.bytes (he.size ∙ sym hp.size)) (
          rw (laws.aes_inverse key (xor_bytes x c) mixed)
            (xor_bytes_cancel x c hx.bytes (hx.size ∙ sym hc.size))) in
      let tail =
        decrypt_blocks-encrypt_blocks n y x (drop 16 src) hy hx
          (omega (arith, length-drop 16 src, size)) (All-drop IsByte 16 src bytes) in
      rw (take-append 16 y rest hy.size, drop-append 16 y rest hy.size)
        (rw (out) (rw tail (take-append-drop 16 src)))

  length-encrypt_blocks :
      (n : ℕ) (c p src : List ℕ)
      → IsBlock 16 c
      → IsBlock 16 p
      → length src ≡ n * 16
      → All IsByte src
      → IsBlock (n * 16) (encrypt_blocks crypto key n c p src)
  unfolding encrypt_blocks
  length-encrypt_blocks zero c p src hc hp size bytes = record { size = refl; bytes = tt }
  length-encrypt_blocks (suc n) c p src hc hp size bytes =
      let x = take 16 src in
      let hx : IsBlock 16 x = IsBlock-take 16 src (omega (arith, size)) bytes in
      let mixed = xor_bytes-IsBlock 16 x c hx hc in
      let e = crypto.aes_encrypt key (xor_bytes x c) in
      let y = xor_bytes e p in
      let hy = xor_bytes-IsBlock 16 e p (laws.aes_size key (xor_bytes x c) mixed) hp in
      let rest = encrypt_blocks crypto key n y x (drop 16 src) in
      let tail =
        length-encrypt_blocks n y x (drop 16 src) hy hx (omega (arith, length-drop 16 src, size))
          (All-drop IsByte 16 src bytes) in
      record {
        size = omega (arith, length-append y rest, hy.size, tail.size);
        bytes = All-append IsByte y rest hy.bytes tail.bytes;
      }

-- Encryption of any non-empty whole number of blocks of bytes under a 32-byte key and a 32-byte IV
-- succeeds, keeps the length, and is undone by decryption under the same key and IV, if the block
-- cipher is inverted by its decryption.
pub ige_decrypt-ige_encrypt :
    (crypto : Crypto)
    → IsCrypto crypto
    → (key iv src : List ℕ) → length key ≡ 32
    → IsBlock 32 iv
    → 0 < length src
    → length src % 16 ≡ 0
    → All IsByte src
    → (out : List ℕ) × (ige_encrypt crypto key iv src ≡ ok out)
      × IsBlock (length src) out
      × (ige_decrypt crypto key iv out ≡ ok src)
unfolding ige_encrypt ige_decrypt check_sizes
ige_decrypt-ige_encrypt crypto laws key iv src key_size iv_size filled whole bytes =
    let n = length src / 16 in
    let size : length src ≡ n * 16 = omega (arith, whole) in
    let c = take 16 iv in
    let p = drop 16 iv in
    let hc : IsBlock 16 c = IsBlock-take 16 iv (omega (arith, iv_size.size)) iv_size.bytes in
    let hp : IsBlock 16 p = record {
      size = omega (arith, length-drop 16 iv, iv_size.size);
      bytes = All-drop IsByte 16 iv iv_size.bytes;
    } in
    let out = encrypt_blocks crypto key n c p src in
    let sized = length-encrypt_blocks crypto laws key n c p src hc hp size bytes in
    let same : length out ≡ length src = sized.size ∙ sym size in
    (
      out,
      rw (key_size, iv_size.size) (ground arith),
      record { size = same; bytes = sized.bytes },
      rw (key_size, iv_size.size, same)
          (rw (decrypt_blocks-encrypt_blocks crypto laws key n c p src hc hp size bytes)
            (ground arith)),
    )

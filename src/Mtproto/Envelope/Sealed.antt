-- ===== src/Mtproto/Envelope/Sealed.antt =====
-- `Encrypt` and `Decrypt` together.
use messaging_app.Prelude.{
  List, Option, ap, arith, drop, drop-append, drop-skip, false, length, length-append, ltb, ok,
  refl, some, take, take-append, ℕ, ◌%◌, ◌++◌, ◌+◌, ◌<◌, ◌^◌, ◌∙◌, ◌≡◌, ◌≤◌,
}
use messaging_app.Mtproto.{Crypto, IsBlock, IsCrypto}
use messaging_app.Mtproto.Envelope.{
  Message, decrypt, encrypt, envelope_header, max_message_size, open_plaintext, pad_length,
}
use messaging_app.Mtproto.Envelope.RoundTrip.{
  IsMessage, length-envelope_header, open_plaintext-header, pad_length_bounds, slice_front,
}
use messaging_app.Mtproto.Ige.{ige_encrypt}
use messaging_app.Mtproto.Ige.RoundTrip.{ige_decrypt-ige_encrypt}
use messaging_app.Mtproto.Keys.{
  AuthKey, Direction, derive_aes_key_iv, derive_aes_key_iv_total, msg_key, msg_key-IsBlock,
  verify_msg_key,
}
use messaging_app.Prelude.Bytes.{
  All, All-append, IsByte, bytes_eq_refl, get_le, get_le-put_le, length-put_le, put_le, slice,
}

module _ (crypto : Crypto) (laws : IsCrypto crypto) (k : AuthKey) (d : Direction) where
  -- Any plaintext of whole blocks, sealed as `Encrypt` does.
  decrypt_sealed :
      (plaintext : List ℕ) (m : Message)
      → k.id < 2 ^ 64
      → 44 ≤ length plaintext
      → length plaintext % 16 ≡ 0
      → All IsByte plaintext
      → open_plaintext plaintext ≡ ok m
      → (key : List ℕ) × (iv : List ℕ) × (ciphertext : List ℕ) × (derive_aes_key_iv crypto k
            (msg_key crypto k plaintext d)
            d
          ≡ ok (key, iv))
        × (ige_encrypt crypto key iv plaintext ≡ ok ciphertext)
        × (decrypt crypto k (put_le 8 k.id ++ (msg_key crypto k plaintext d ++ ciphertext)) d
            ≡ ok m)
  unfolding decrypt verify_msg_key
  decrypt_sealed plaintext m id_fits long whole bytes opens =
      let mk = msg_key crypto k plaintext d in
      let hmk = msg_key-IsBlock crypto laws k plaintext d in
      let (key, iv, derived, hkey, hiv) = derive_aes_key_iv_total crypto laws k mk d hmk.size in
      let (ciphertext, sealed, hc, opened) =
        ige_decrypt-ige_encrypt crypto laws key iv plaintext hkey.size hiv (omega (arith, long))
          whole bytes in
      let id_bytes = put_le 8 k.id in
      let frame = id_bytes ++ (mk ++ ciphertext) in
      let size : length frame ≡ 24 + length plaintext = omega (
        arith,
        length-append id_bytes (mk ++ ciphertext),
        length-append mk ciphertext,
        length-put_le 8 k.id,
        hmk.size,
        hc.size,
      ) in
      let id_read : get_le (take 8 frame) ≡ k.id =
        rw (take-append 8 id_bytes (mk ++ ciphertext) (length-put_le 8 k.id))
          (get_le-put_le 8 k.id id_fits) in
      let mk_read : slice 8 16 frame ≡ mk =
        slice_front 8 16 id_bytes mk (length-put_le 8 k.id) hmk.size ciphertext in
      let c_read : drop 24 frame ≡ ciphertext =
        drop-skip 24 16 id_bytes (mk ++ ciphertext) (ap (λ n. n + 16) (length-put_le 8 k.id))
        ∙ drop-append 16 mk ciphertext hmk.size in
      let blocks : length ciphertext % 16 ≡ 0 = rw hc.size whole in
      let tested = bytes_eq_refl mk in
      (
        key,
        iv,
        ciphertext,
        derived,
        sealed,
        rw (size, id_read, mk_read, c_read, blocks)
            (rw (derived, decrypt)
              (rw (opened, decrypt) (rw tested (ground (arith, opens, long))))),
      )

-- Every message whose integers fit their widths, with a body of at most 16 MiB, is encrypted, and
-- the same key and direction decrypt the frame to that very message, if the random reader gives
-- the padding asked for, the key id has 64 bits, and the block cipher is inverted by its
-- decryption.
pub decrypt-encrypt :
    (crypto : Crypto)
    → IsCrypto crypto
    → (random : ℕ → Option (List ℕ)) (padding : List ℕ) (k : AuthKey) (m : Message) (d : Direction)
    → k.id < 2 ^ 64
    → IsMessage m
    → random (pad_length m) ≡ some padding
    → IsBlock (pad_length m) padding
    → (frame : List ℕ) × (encrypt crypto random k m d ≡ ok frame)
      × (decrypt crypto k frame d ≡ ok m)
unfolding encrypt
decrypt-encrypt crypto laws random padding k m d id_fits h drawn hp =
    let plaintext = envelope_header m ++ (m.body ++ padding) in
    let (low, high, whole) = pad_length_bounds m in
    let size : length plaintext ≡ 32 + length m.body + pad_length m = omega (
      arith,
      length-append (envelope_header m) (m.body ++ padding),
      (length-envelope_header m).size,
      length-append m.body padding,
      hp.size,
    ) in
    let bytes : All IsByte plaintext =
      All-append IsByte (envelope_header m) (m.body ++ padding) (length-envelope_header m).bytes
        (All-append IsByte m.body padding h.bytes hp.bytes) in
    let (key, iv, ciphertext, derived, sealed, decrypted) =
      decrypt_sealed crypto laws k d plaintext m id_fits (omega (arith, size, low)) (rw size whole)
        bytes
        (open_plaintext-header m padding h (omega (arith, low, hp.size))
          (omega (arith, high, hp.size))) in
    let fits : ltb max_message_size (length m.body) ≡ false = ground (arith, h.size_fits) in
    (
      put_le 8 k.id ++ (msg_key crypto k plaintext d ++ ciphertext),
      rw fits (rw (drawn, encrypt) (rw (derived, encrypt) (rw (sealed, encrypt) refl))),
      decrypted,
    )

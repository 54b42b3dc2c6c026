-- ===== src/Mtproto/Envelope/Authentic.antt =====
-- What an accepted frame shows.
use messaging_app.Prelude.{
  List, Result-cases, arith, drop, inl, inr, length, length-drop, length-take, ok, sym, take, true,
  ℕ, ◌+◌, ◌-◌, ◌≡◌, ◌≤◌,
}
use messaging_app.Mtproto.{Crypto}
use messaging_app.Mtproto.Envelope.{Message, decrypt, max_message_size, open_plaintext}
use messaging_app.Mtproto.Ige.{ige_decrypt}
use messaging_app.Mtproto.Keys.{AuthKey, Direction, derive_aes_key_iv, msg_key, verify_msg_key}
use messaging_app.Prelude.Bytes.{bytes_eq, bytes_eq_sound, get_le, slice}

open_plaintext_bounds :
    (plaintext : List ℕ) (m : Message)
    → open_plaintext plaintext ≡ ok m
    → (m.body ≡ slice 32 (get_le (slice 28 4 plaintext)) plaintext)
      × (length m.body ≤ max_message_size)
      × (32 + length m.body + 12 ≤ length plaintext)
      × (length plaintext ≤ 32 + length m.body + 1024)
unfolding open_plaintext
open_plaintext_bounds plaintext m accepted =
    let n = get_le (slice 28 4 plaintext) in
    let body : m.body ≡ slice 32 n plaintext = ground arith in
    let fits : n ≤ max_message_size = ground arith in
    let inside : 32 + n ≤ length plaintext = ground arith in
    let low : 12 ≤ length plaintext - 32 - n = ground arith in
    let high : length plaintext - 32 - n ≤ 1024 = ground arith in
    let size : length (slice 32 n plaintext) ≡ n =
      unfold slice in
      omega (arith, length-take n (drop 32 plaintext), length-drop 32 plaintext, inside) in
    let same : length m.body ≡ n = rw body size in
    (
      body,
      omega (arith, same, fits),
      omega (arith, same, inside, low),
      omega (arith, same, inside, high),
    )

-- A frame that Decrypt accepts bears the key's id, and the message key that the auth key and the
-- direction give for the decrypted plaintext. The body is read from that plaintext, is at most 16
-- MiB, and has 12 to 1024 bytes behind it.
pub decrypt_authentic :
    (crypto : Crypto) (k : AuthKey) (frame : List ℕ) (d : Direction) (m : Message)
    → decrypt crypto k frame d ≡ ok m
    → (plaintext : List ℕ) × (key : List ℕ) × (iv : List ℕ) × (get_le (take 8 frame) ≡ k.id)
      × (derive_aes_key_iv crypto k (slice 8 16 frame) d ≡ ok (key, iv))
      × (ige_decrypt crypto key iv (drop 24 frame) ≡ ok plaintext)
      × (slice 8 16 frame ≡ msg_key crypto k plaintext d)
      × (m.body ≡ slice 32 (get_le (slice 28 4 plaintext)) plaintext)
      × (length m.body ≤ max_message_size)
      × (32 + length m.body + 12 ≤ length plaintext)
      × (length plaintext ≤ 32 + length m.body + 1024)
unfolding decrypt
decrypt_authentic crypto k frame d m accepted =
    let mk = slice 8 16 frame in
    elim (Result-cases (derive_aes_key_iv crypto k mk d)) [
      | inl (e, fails) ↦ absurd (ground arith)
      | inr ((key, iv), derived) ↦ elim (Result-cases (ige_decrypt crypto key iv (drop 24 frame))) [
        | inl (e, fails) ↦ absurd (ground arith)
        | inr (plaintext, opened) ↦
            let id_same : get_le (take 8 frame) ≡ k.id = ground arith in
            let tested : bytes_eq (msg_key crypto k plaintext d) mk ≡ true =
              unfold verify_msg_key in ground arith in
            let read : open_plaintext plaintext ≡ ok m = unfold verify_msg_key in ground arith in
            let (body, small, low, high) = open_plaintext_bounds plaintext m read in
            (
              plaintext,
              key,
              iv,
              id_same,
              derived,
              opened,
              sym (bytes_eq_sound (msg_key crypto k plaintext d) mk tested),
              body,
              small,
              low,
              high,
            )
      ]
    ]

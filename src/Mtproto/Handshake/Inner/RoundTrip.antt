-- ===== src/Mtproto/Handshake/Inner/RoundTrip.antt =====
-- What is sealed is opened again, and the layout of the RSA-protected data is read back.
use messaging_app.Prelude.{
  Bool-cases, List, Option, [], ap, append-nil, append_assoc, arith, drop, drop-append, false, inl,
  inr, length, length-append, ltb, ok, refl, some, suc, take, take-append, true, zero, ℕ, ◌%◌, ◌++◌,
  ◌+◌, ◌-◌, ◌<◌, ◌==◌, ◌∙◌, ◌∷◌, ◌≡◌, ◌≢◌, ◌≤◌,
}
use messaging_app.Mtproto.{Crypto, IsBlock, IsCrypto}
use messaging_app.Mtproto.Handshake.Inner.{
  ige_open, ige_seal, inner_padding, tmp_aes_key_iv, try_cuts,
}
use messaging_app.Mtproto.Ige.{ige_decrypt, ige_encrypt}
use messaging_app.Mtproto.Ige.RoundTrip.{ige_decrypt-ige_encrypt}
use messaging_app.Mtproto.Keys.{IsBlock-append, slice-IsBlock}
use messaging_app.Prelude.Bytes.{
  All, All-append, IsByte, bytes_eq, bytes_eq_refl, bytes_eq_sound, slice,
}

-- No extension of the payload by some of the padding has the payload's digest.
abbrev pub NoShorterPadding : Crypto → List ℕ → List ℕ → Type 0
NoShorterPadding crypto payload padding =
    (j : ℕ)
    → 0 < j
    → j ≤ length padding
    → crypto.sha1 (payload ++ take j padding) ≢ crypto.sha1 payload

take_past : (j : ℕ) (xs ys : List ℕ) → take (length xs + j) (xs ++ ys) ≡ xs ++ take j ys
take_past j [] ys = let plain : 0 + j ≡ j = omega arith in rw plain refl
take_past j (x ∷ xs) ys =
    let moved : suc (length xs) + j ≡ suc (length xs + j) = omega arith in
    rw moved (ap (λ l. x ∷ l) (take_past j xs ys))

bytes_eq_refuted : (xs ys : List ℕ) → xs ≢ ys → bytes_eq xs ys ≡ false
bytes_eq_refuted xs ys differ = elim (Bool-cases (bytes_eq xs ys)) [
  | inl same ↦ absurd (differ (bytes_eq_sound xs ys same))
  | inr other ↦ other
]

try_cuts_finds :
    (crypto : Crypto) (payload padding : List ℕ)
    → NoShorterPadding crypto payload padding
    → (tries j : ℕ) → j < tries
    → j ≤ length padding
    → try_cuts crypto tries (length payload + j) (crypto.sha1 payload) (payload ++ padding)
      ≡ ok payload
unfolding try_cuts
try_cuts_finds crypto payload padding unique zero j h fits = absurd (omega (arith, h))
try_cuts_finds crypto payload padding unique (suc tries) zero h fits =
    let all_of_it : take (length payload + 0) (payload ++ padding) ≡ payload =
      take_past 0 payload padding ∙ append-nil payload in
    rw (all_of_it, bytes_eq_refl (crypto.sha1 payload)) refl
try_cuts_finds crypto payload padding unique (suc tries) (suc j) h fits =
    let other =
      bytes_eq_refuted (crypto.sha1 (payload ++ take (suc j) padding)) (crypto.sha1 payload)
        (unique (suc j) (omega arith) fits) in
    let one_less : length payload + suc j - 1 ≡ length payload + j = omega arith in
    let longer : (length payload + suc j == 0) ≡ false = ground arith in
    rw (take_past (suc j) payload padding, other, longer, one_less)
      (try_cuts_finds crypto payload padding unique tries j (omega (arith, h))
        (omega (arith, fits)))

inner_padding_given :
    (random : ℕ → Option (List ℕ)) (pad : ℕ) (padding : List ℕ)
    → random pad ≡ some padding
    → length padding ≡ pad
    → inner_padding random pad ≡ ok padding
unfolding inner_padding
inner_padding_given random pad [] drawn size = elim (Bool-cases (ltb 0 pad)) [
  | inl some_needed ↦ rw (some_needed, drawn) refl
  | inr none_needed ↦ rw none_needed refl
]
inner_padding_given random pad (b ∷ padding) drawn size =
    let needed : ltb 0 pad ≡ true = ground (arith, size) in rw (needed, drawn) refl

-- The padding that `ige_seal` asks for.
abbrev pub pad_of : List ℕ → ℕ
pad_of payload = (16 - (20 + length payload) % 16) % 16

-- What is encrypted: the digest, the payload and the padding.
abbrev sealed_bytes : Crypto → List ℕ → List ℕ → List ℕ
sealed_bytes crypto payload padding = (crypto.sha1 payload ++ payload) ++ padding

length-sealed_bytes :
    (crypto : Crypto)
    → IsCrypto crypto
    → (payload padding : List ℕ)
    → length (sealed_bytes crypto payload padding) ≡ 20 + length payload + length padding
length-sealed_bytes crypto laws payload padding =
    let digest = crypto.sha1 payload in
    omega (
      arith,
      length-append (digest ++ payload) padding,
      length-append digest payload,
      (laws.sha1_size payload).size,
    )

ige_seal_of_encrypted :
    (crypto : Crypto)
    → IsCrypto crypto
    → (random : ℕ → Option (List ℕ)) (padding key iv payload out : List ℕ)
    → random (pad_of payload) ≡ some padding
    → length padding ≡ pad_of payload
    → ige_encrypt crypto key iv (sealed_bytes crypto payload padding) ≡ ok out
    → ige_seal crypto random key iv payload ≡ ok out
unfolding ige_seal
ige_seal_of_encrypted crypto laws random padding key iv payload out drawn size sealed =
    let digest = crypto.sha1 payload in
    let buf_size : length (digest ++ payload) ≡ 20 + length payload =
      omega (arith, length-append digest payload, (laws.sha1_size payload).size) in
    rw (buf_size, inner_padding_given random (pad_of payload) padding drawn size) sealed

ige_open_of_decrypted :
    (crypto : Crypto)
    → IsCrypto crypto
    → (padding key iv payload out : List ℕ) → length padding < 17
    → NoShorterPadding crypto payload padding
    → ige_decrypt crypto key iv out ≡ ok (sealed_bytes crypto payload padding)
    → ige_open crypto key iv out ≡ ok payload
unfolding ige_open
ige_open_of_decrypted crypto laws padding key iv payload out short unique opened =
    let digest = crypto.sha1 payload in
    let whole = sealed_bytes crypto payload padding in
    let hd = laws.sha1_size payload in
    let long : ltb (length whole) 20 ≡ false =
      ground (arith, length-sealed_bytes crypto laws payload padding) in
    let assoc : whole ≡ digest ++ (payload ++ padding) = append_assoc digest payload padding in
    let front : take 20 whole ≡ digest =
      ap (take 20) assoc ∙ take-append 20 digest (payload ++ padding) hd.size in
    let back : drop 20 whole ≡ payload ++ padding =
      ap (drop 20) assoc ∙ drop-append 20 digest (payload ++ padding) hd.size in
    rw (opened, long, front, back, length-append payload padding)
      (try_cuts_finds crypto payload padding unique 17 (length padding) short (omega arith))

-- A payload of bytes is sealed under a 32-byte key and a 32-byte IV, and opened to that very payload, if
-- the random reader gives the padding asked for, the block cipher is inverted by its decryption, and no
-- extension of the payload by some of the padding has the payload's digest.
pub ige_open-ige_seal :
    (crypto : Crypto)
    → IsCrypto crypto
    → (random : ℕ → Option (List ℕ)) (padding key iv payload : List ℕ) → length key ≡ 32
    → IsBlock 32 iv
    → All IsByte payload
    → random (pad_of payload) ≡ some padding
    → IsBlock (pad_of payload) padding
    → NoShorterPadding crypto payload padding
    → (sealed : List ℕ) × (ige_seal crypto random key iv payload ≡ ok sealed)
      × (ige_open crypto key iv sealed ≡ ok payload)
ige_open-ige_seal crypto laws random padding key iv payload key_size iv_size bytes drawn block
      unique =
    let digest = crypto.sha1 payload in
    let whole = sealed_bytes crypto payload padding in
    let size = length-sealed_bytes crypto laws payload padding in
    let all_bytes =
      All-append IsByte (digest ++ payload) padding
        (All-append IsByte digest payload (laws.sha1_size payload).bytes bytes) block.bytes in
    let (out, sealed, sized, opened) =
      ige_decrypt-ige_encrypt crypto laws key iv whole key_size iv_size (omega (arith, size))
        (omega (arith, size, block.size)) all_bytes in
    (
      out,
      ige_seal_of_encrypted crypto laws random padding key iv payload out drawn block.size sealed,
      ige_open_of_decrypted crypto laws padding key iv payload out (omega (arith, block.size))
          unique opened,
    )

pub tmp_aes_key_iv-IsBlock :
    (crypto : Crypto)
    → IsCrypto crypto
    → (new_nonce server_nonce : List ℕ) → IsBlock 32 new_nonce
    → IsBlock 32 ((tmp_aes_key_iv crypto new_nonce server_nonce).0)
      × IsBlock 32 ((tmp_aes_key_iv crypto new_nonce server_nonce).1)
unfolding tmp_aes_key_iv
tmp_aes_key_iv-IsBlock crypto laws new_nonce server_nonce size =
    let ns = crypto.sha1 (new_nonce ++ server_nonce) in
    let sn = crypto.sha1 (server_nonce ++ new_nonce) in
    let nn = crypto.sha1 (new_nonce ++ new_nonce) in
    let hs = laws.sha1_size (server_nonce ++ new_nonce) in
    (
      IsBlock-append 20 12 ns (slice 0 12 sn) (laws.sha1_size (new_nonce ++ server_nonce))
          (slice-IsBlock 0 12 20 sn hs (omega arith)),
      IsBlock-append 8 24 (slice 12 8 sn) (nn ++ slice 0 4 new_nonce)
          (slice-IsBlock 12 8 20 sn hs (omega arith))
          (IsBlock-append 20 4 nn (slice 0 4 new_nonce) (laws.sha1_size (new_nonce ++ new_nonce))
            (slice-IsBlock 0 4 32 new_nonce size (omega arith))),
    )

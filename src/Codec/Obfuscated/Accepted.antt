-- ===== src/Codec/Obfuscated/Accepted.antt =====
-- `DialObfuscated` of pkg/mtproto/codec/obfuscated.go with the `AcceptObfuscated` of the other end.
use native.Mathlib.Nat.{zero-add}
use messaging_app.Prelude.{
  Bool-cases, List, ap, arith, inl, inr, length, ok, refl, suc, sym, true, zero, ℕ, ◌++◌, ◌+◌, ◌<◌,
  ◌^◌, ◌∙◌, ◌≡◌,
}
use messaging_app.Codec.Detect.{Framing, abridged, detect, full, intermediate, padded}
use messaging_app.Codec.Detect.Magic.{HasMagic}
use messaging_app.Codec.Full.{new_full}
use messaging_app.Codec.Obfuscated.{
  Keystream, ObfuscatedConn, accept_obfuscated, dial_obfuscated, draw, is_disguise, tag_of,
}
use messaging_app.Codec.Obfuscated.Packet.{accepted, client, dialled, disguised, packet, server}
use messaging_app.Mtproto.{IsBlock}

-- Draws that all succeed, one of them within the bound with bytes that pass the tests.
draw_finds :
    (blocks : ℕ → List ℕ) (left i n : ℕ)
    → ((j : ℕ) → length (blocks j) ≡ 56)
    → n < left
    → is_disguise (blocks (i + n)) ≡ true
    → (bs : List ℕ) × (draw (λ j. ok (blocks j)) left i ≡ ok bs)
      × (length bs ≡ 56)
      × (is_disguise bs ≡ true)
unfolding draw
draw_finds blocks zero i n sizes h good = absurd (omega arith)
draw_finds blocks (suc left) i zero sizes h good =
    let here : i + 0 ≡ i = omega arith in
    let now : is_disguise (blocks i) ≡ true = ap (λ j. is_disguise (blocks j)) (sym here) ∙ good in
    (blocks i, rw now refl, sizes i, now)
draw_finds blocks (suc left) i (suc n) sizes h good = elim (Bool-cases (is_disguise (blocks i))) [
  | inl now ↦ (blocks i, rw now refl, sizes i, now)
  | inr later ↦
      let next : suc i + n ≡ i + suc n = omega arith in
      rw later (
        draw_finds blocks left (suc i) n sizes (omega arith)
          (ap (λ j. is_disguise (blocks j)) next ∙ good))
]

tag_of_total : (f : Framing) → HasMagic f → (tag : List ℕ) × (tag_of f ≡ ok tag)
unfolding tag_of
tag_of_total abridged h = (_, refl)
tag_of_total intermediate h = (_, refl)
tag_of_total padded h = (_, refl)
tag_of_total (full c) h = absurd h

-- A client whose draws of 56 bytes succeed, one of the first 33 of them with bytes that pass its
-- tests, and that asks for a framing with a tag: it writes a packet that is not taken for one of
-- the framings that announce themselves, and the server gets from it that framing, that datacentre
-- and the client's two streams, each for the other direction, and leaves what follows the packet.
pub accept_obfuscated-dial_obfuscated :
    (ks : Keystream) (blocks : ℕ → List ℕ) (n : ℕ) (last : List ℕ) (f : Framing) (dc : ℕ)
    → ((j : ℕ) → length (blocks j) ≡ 56)
    → n < 33
    → is_disguise (blocks n) ≡ true
    → IsBlock 2 last
    → HasMagic f
    → dc < 2 ^ 16
    → (rest : List ℕ)
    → (wire : List ℕ) × (c : ObfuscatedConn) × (dial_obfuscated ks
          (λ j. ok (blocks j))
          (ok last)
          f
          dc
        ≡ ok (wire, c))
      × (c.framing ≡ f)
      × (c.dc_id ≡ dc)
      × (accept_obfuscated ks (wire ++ rest) ≡ ok (record c { enc = c.dec; dec = c.enc }, rest))
      × (detect (wire ++ rest) ≡ ok (full new_full, wire ++ rest))
unfolding client server
accept_obfuscated-dial_obfuscated ks blocks n last f dc sizes bound good hl hf hd rest =
    let (bs, drawn, hb, fine) = draw_finds blocks 33 0 n sizes bound (rw zero-add good) in
    let (tag, ht) = tag_of_total f hf in
    (
      packet ks bs tag last f dc hb ht hl hd,
      client ks bs tag last f dc hb ht hl hd,
      dialled ks bs tag last f dc hb ht hl hd (λ j. ok (blocks j)) drawn,
      refl,
      refl,
      accepted ks bs tag last f dc hb ht hl hd rest,
      disguised ks bs tag last f dc hb ht hl hd fine rest,
    )

-- ===== src/Mtproto/Handshake/Agreement/Opened.antt =====
-- Sealing of inner data, and the opening of what was sealed.
use mathlib.Core.List.{reverse-cons}
use native.Mathlib.Nat.{mod-lt}
use messaging_app.Prelude.{
  Bool-cases, List, [], arith, inl, inr, ok, refl, reverse, subst, suc, sym, zero, ℕ, ◌/◌, ◌<◌,
  ◌==◌, ◌^◌, ◌∷◌, ◌≡◌,
}
use messaging_app.Mtproto.{Crypto, IsBlock, IsCrypto}
use messaging_app.Mtproto.Handshake.Agreement.{Draws}
use messaging_app.Mtproto.Handshake.Agreement.Honest.{IsFair, IsToldApart}
use messaging_app.Mtproto.Handshake.Group.{big_bytes, dh_prime, digits, exp_mod}
use messaging_app.Mtproto.Handshake.Group.Bytes.{get_be-big_bytes}
use messaging_app.Mtproto.Handshake.Inner.{ige_open, ige_seal, tmp_aes_key_iv}
use messaging_app.Mtproto.Handshake.Inner.RoundTrip.{
  ige_open-ige_seal, pad_of, tmp_aes_key_iv-IsBlock,
}
use messaging_app.Mtproto.Handshake.Server.{ServerHandshake}
use messaging_app.Prelude.Bytes.{All, All-append, IsByte, get_be}

pub reverse-All : (P : ℕ → Type 0) (xs : List ℕ) → All P xs → All P (reverse xs)
reverse-All P [] h = tt
reverse-All P (x ∷ xs) h =
    subst (λ l. All P l) (sym (reverse-cons x xs))
      (All-append P (reverse xs) (x ∷ []) (reverse-All P xs h.1) (h.0, tt))

digits-IsByte : (w v : ℕ) → All IsByte (digits w v)
unfolding digits
digits-IsByte zero v = tt
digits-IsByte (suc w) v = elim (Bool-cases (v == 0)) [
  | inl none_left ↦ rw none_left tt
  | inr more ↦ rw more (omega arith, digits-IsByte w (v / 256))
]

pub big_bytes-IsByte : (v : ℕ) → All IsByte (big_bytes v)
unfolding big_bytes
big_bytes-IsByte v = reverse-All IsByte (digits 256 v) (digits-IsByte 256 v)

pub dh_prime-IsBlock : IsBlock 256 (big_bytes dh_prime)
unfolding big_bytes digits
dh_prime-IsBlock = record { size = refl; bytes = big_bytes-IsByte dh_prime }

pub exp_mod-lt : (g e : ℕ) → exp_mod g e < 256 ^ 256
exp_mod-lt g e = let positive : 0 < dh_prime = omega arith in omega (arith, mod-lt (g ^ e) positive)

-- A value's bytes are read back as the value.
pub get_be_of_value : (g e : ℕ) → get_be (big_bytes (exp_mod g e)) ≡ exp_mod g e
get_be_of_value g e = get_be-big_bytes (exp_mod g e) (exp_mod-lt g e)

-- Bytes sealed under the temporary key are opened under it.
pub sealed_opened :
    (crypto : Crypto)
    → IsCrypto crypto
    → (d : Draws) (h : ServerHandshake) → IsFair d h
    → (server_nonce payload : List ℕ) → All IsByte payload
    → IsToldApart crypto d payload
    → (sealed : List ℕ) × (ige_seal crypto d.random
          ((tmp_aes_key_iv crypto d.new_nonce server_nonce).0)
          ((tmp_aes_key_iv crypto d.new_nonce server_nonce).1)
          payload
        ≡ ok sealed)
      × (ige_open crypto
            ((tmp_aes_key_iv crypto d.new_nonce server_nonce).0)
            ((tmp_aes_key_iv crypto d.new_nonce server_nonce).1)
            sealed
          ≡ ok payload)
sealed_opened crypto laws d h fair server_nonce payload bytes unique =
    let (padding, drawn, block) = fair.padding (pad_of payload) in
    let keys = tmp_aes_key_iv-IsBlock crypto laws d.new_nonce server_nonce fair.new_nonce in
    ige_open-ige_seal crypto laws d.random padding _ _ payload keys.0.size keys.1 bytes drawn block
      (unique padding drawn)

-- ===== src/Mtproto/Handshake/Inner.antt =====
-- pkg/mtproto/handshake.go: the temporary key, the sealing of the inner data, and the hash that
-- confirms the auth key.
pub mod RoundTrip
use messaging_app.Prelude.{
  List, Option, Result, [], drop, err, if◌then◌else◌, length, ltb, none, ok, refuse, some, suc,
  take, zero, ℕ, ◌%◌, ◌++◌, ◌-◌, ◌==◌, ◌>>=◌, ◌>>◌, ◌∷◌,
}
use messaging_app.Mtproto.{Crypto, Error, bad_digest, no_random, short_frame}
use messaging_app.Mtproto.Ige.{ige_decrypt, ige_encrypt}
use messaging_app.Mtproto.Keys.{AuthKey}
use messaging_app.Prelude.Bytes.{bytes_eq, slice}

-- The padding of `igeSeal`, which is read only if some is needed.
unfoldable pub inner_padding : (ℕ → Option (List ℕ)) → ℕ → Result Error (List ℕ)
inner_padding random pad =
    if ltb 0 pad then elim (random pad) [ none ↦ err no_random | some bs ↦ ok bs ] else ok []

module _ (crypto : Crypto) where
  -- `tmpAESKeyIV`
  unfoldable pub tmp_aes_key_iv : List ℕ → List ℕ → List ℕ × List ℕ
  tmp_aes_key_iv new_nonce server_nonce =
      let ns = crypto.sha1 (new_nonce ++ server_nonce) in
      let sn = crypto.sha1 (server_nonce ++ new_nonce) in
      let nn = crypto.sha1 (new_nonce ++ new_nonce) in
      (ns ++ slice 0 12 sn, slice 12 8 sn ++ (nn ++ slice 0 4 new_nonce))

  -- `newNonceHash`
  unfoldable pub new_nonce_hash : List ℕ → ℕ → AuthKey → List ℕ
  new_nonce_hash new_nonce tag key =
      slice 4 16 (crypto.sha1 (new_nonce ++ (tag ∷ slice 0 8 (crypto.sha1 key.raw))))

  -- `igeSeal`
  unfoldable pub ige_seal : (ℕ → Option (List ℕ)) → List ℕ → List ℕ → List ℕ → Result Error (List ℕ)
  ige_seal random key iv payload = do
    let buf = crypto.sha1 payload ++ payload
    padding ← inner_padding random ((16 - length buf % 16) % 16)
    ige_encrypt crypto key iv (buf ++ padding)

  -- The loop of `igeOpen` from the length `cut` down, over `tries` lengths at most.
  unfoldable pub try_cuts : ℕ → ℕ → List ℕ → List ℕ → Result Error (List ℕ)
  try_cuts zero cut digest body = err bad_digest
  try_cuts (suc tries) cut digest body =
      let shorter = try_cuts tries (cut - 1) digest body in
      if bytes_eq (crypto.sha1 (take cut body)) digest
      then ok (take cut body)
      else if cut == 0
      then err bad_digest
      else shorter

  -- `igeOpen`: 17 lengths are tried, from no padding to 16 bytes.
  unfoldable pub ige_open : List ℕ → List ℕ → List ℕ → Result Error (List ℕ)
  ige_open key iv sealed = do
    plain ← ige_decrypt crypto key iv sealed
    refuse (ltb (length plain) 20) short_frame
    try_cuts 17 (length (drop 20 plain)) (take 20 plain) (drop 20 plain)

-- ===== src/Mtproto/Handshake/Agreement/Factored.antt =====
-- The client's factors, and their acceptance by the server.
use native.Mathlib.Nat.{mul_comm}
use messaging_app.Prelude.{
  ==_refl, List, arith, le→ltb, ok, refl, some, subst, sym, true, ℕ, ◌*◌, ◌<◌, ◌==◌, ◌^◌, ◌≡◌, ◌≤◌,
}
use messaging_app.Mtproto.{IsBlock}
use messaging_app.Mtproto.Handshake.{PqInnerData, ReqDhParams, marshal_binary}
use messaging_app.Mtproto.Handshake.Agreement.{Draws}
use messaging_app.Mtproto.Handshake.Agreement.Honest.{IsChallenged, IsKeyPair, challenge_of}
use messaging_app.Mtproto.Handshake.Client.{ClientHandshake, is_known, on_res_pq, seal_factors}
use messaging_app.Mtproto.Handshake.Layout.{
  IsPqInnerData, length-marshal_binary, unmarshal_binary-marshal_binary,
}
use messaging_app.Mtproto.Handshake.Server.{
  ServerHandshake, ServerKey, check_nonces, check_req_dh_params, check_step,
}
use messaging_app.Mtproto.Pq.{factor_pq, verify_pq}
use messaging_app.Mtproto.Pq.Factors.{factor_pq_sound, proper_factor, verify_pq_iff}
use messaging_app.Prelude.Bytes.{bytes_eq, bytes_eq_refl}

pub check_nonces_same :
    (nonce server_nonce : List ℕ) (h : ServerHandshake)
    → nonce ≡ h.nonce
    → server_nonce ≡ h.server_nonce
    → check_nonces nonce server_nonce h ≡ ok tt
unfolding check_nonces
check_nonces_same nonce server_nonce h e f =
    rw (e, f, bytes_eq_refl h.nonce, bytes_eq_refl h.server_nonce) refl

pub check_step_open :
    (now n : ℕ) (h : ServerHandshake) → h.step ≡ n → now ≤ h.deadline → check_step now n h ≡ ok tt
unfolding check_step
check_step_open now n h e in_time = rw (e, ==_refl n, le→ltb h.deadline now in_time) refl

module _ (key : ServerKey) (d : Draws) (h : ServerHandshake) (c : ClientHandshake) (p q : ℕ) where
  -- What the client sends under RSA.
  abbrev pub inner_of : PqInnerData
  inner_of = record {
    pq = h.pq;
    p = p;
    q = q;
    nonce = c.nonce;
    server_nonce = h.server_nonce;
    new_nonce = d.new_nonce;
  }

  abbrev pub request_with : List ℕ → ReqDhParams
  request_with sealed = record {
    nonce = c.nonce;
    server_nonce = h.server_nonce;
    p = p;
    q = q;
    rsa_fingerprint = c.fp;
    encrypted_data = sealed;
  }

  inner_of-IsPqInnerData :
      h.pq < 2 ^ 64
      → (p * q ≡ h.pq) × (1 < p) × (1 < q)
      → IsBlock 16 c.nonce
      → IsBlock 16 h.server_nonce
      → IsBlock 32 d.new_nonce
      → IsPqInnerData inner_of
  inner_of-IsPqInnerData fits (product, p_large, q_large) nonce server_nonce new_nonce =
      let p_less = proper_factor p q p_large q_large in
      let q_less : q < p * q =
        subst (λ n. q < n) (mul_comm q p) (proper_factor q p q_large p_large) in
      record {
        pq_fits = fits;
        p_fits = omega (arith, fits, p_less, product);
        q_fits = omega (arith, fits, q_less, product);
        nonce_size = nonce.size;
        server_nonce_size = server_nonce.size;
        new_nonce_size = new_nonce.size;
      }

module _ (key : ServerKey) (d : Draws) (h : ServerHandshake) (c : ClientHandshake) (p q : ℕ)
    (pair : IsKeyPair key c) (ready : IsChallenged h c) (new_nonce : IsBlock 32 d.new_nonce)
    (in_time : d.now ≤ h.deadline) (factored : factor_pq d.steps h.pq ≡ ok (p, q)) where
  inner_fits : IsPqInnerData (inner_of key d h c p q)
  inner_fits =
      let (product, p_large, q_large, ordered) = factor_pq_sound d.steps h.pq p q factored in
      inner_of-IsPqInnerData key d h c p q ready.pq_fits (product, p_large, q_large) ready.nonce
        ready.server_nonce new_nonce

  on_res_pq_sends :
      (sealed : List ℕ)
      → c.encrypt_oaep (marshal_binary (inner_of key d h c p q)) ≡ some sealed
      → on_res_pq d.steps (some d.new_nonce) (challenge_of key h) c ≡ (
        record c { server_nonce = h.server_nonce; new_nonce = d.new_nonce },
        ok (request_with key d h c p q sealed),
      )
  unfolding on_res_pq seal_factors is_known
  on_res_pq_sends sealed enc =
      let known : bytes_eq h.nonce c.nonce ≡ true = rw ready.same_nonce (bytes_eq_refl c.nonce) in
      let offered : (key.fingerprint == c.fp) ≡ true =
        rw pair.same_fingerprint (==_refl key.fingerprint) in
      rw (known, offered, factored, enc) refl

  -- The client finds the factors and seals them under the server's key.
  pub on_res_pq_accepts :
      (sealed : List ℕ) × (on_res_pq d.steps (some d.new_nonce) (challenge_of key h) c ≡ (
        record c { server_nonce = h.server_nonce; new_nonce = d.new_nonce },
        ok (request_with key d h c p q sealed),
      ))
      × (key.decrypt_oaep sealed ≡ some (marshal_binary (inner_of key d h c p q)))
  on_res_pq_accepts =
      let inner = inner_of key d h c p q in
      let (sealed, enc, dec) =
        pair.inverse (marshal_binary inner) (length-marshal_binary inner inner_fits) in
      (sealed, on_res_pq_sends sealed enc, dec)

  -- The server accepts them.
  pub check_req_dh_params_accepts :
      (sealed : List ℕ)
      → key.decrypt_oaep sealed ≡ some (marshal_binary (inner_of key d h c p q))
      → check_req_dh_params key d.now (request_with key d h c p q sealed) h
        ≡ ok (inner_of key d h c p q)
  unfolding check_req_dh_params
  check_req_dh_params_accepts sealed dec =
      let inner = inner_of key d h c p q in
      let (product, p_large, q_large, ordered) = factor_pq_sound d.steps h.pq p q factored in
      let fits : p * q < 2 ^ 64 = omega (arith, product, ready.pq_fits) in
      let proof : verify_pq h.pq p q ≡ ok tt =
        (verify_pq_iff h.pq p q fits).1 (p_large, q_large, product) in
      let nonces = check_nonces_same c.nonce h.server_nonce h (sym ready.same_nonce) refl in
      rw
        (
          check_step_open d.now 1 h ready.in_step in_time,
          nonces,
          pair.same_fingerprint,
          ==_refl key.fingerprint,
          proof,
          dec,
          unmarshal_binary-marshal_binary inner inner_fits,
          nonces,
          ==_refl h.pq,
          ==_refl p,
          ==_refl q,
        )
        refl

-- ===== src/Mtproto/Handshake/Layout.antt =====
-- The fixed layout of the data under RSA.
use messaging_app.Prelude.{arith, length, length-append, ok, refl, ℕ, ◌++◌, ◌+◌, ◌<◌, ◌^◌, ◌∙◌, ◌≡◌}
use messaging_app.Mtproto.Envelope.RoundTrip.{slice_first, slice_front, slice_last, slice_skip}
use messaging_app.Mtproto.Handshake.{
  PqInnerData, marshal_binary, pq_inner_data_size, unmarshal_binary,
}
use messaging_app.Prelude.Bytes.{get_be-put_be, length-put_be, put_be, slice}

-- Integers of 64 bits and nonces of 16, 16 and 32 bytes.
pub record IsPqInnerData (d : PqInnerData) : Type 0 where
  pub pq_fits : d.pq < 2 ^ 64
  pub p_fits : d.p < 2 ^ 64
  pub q_fits : d.q < 2 ^ 64
  pub nonce_size : length d.nonce ≡ 16
  pub server_nonce_size : length d.server_nonce ≡ 16
  pub new_nonce_size : length d.new_nonce ≡ 32

pub length-marshal_binary :
    (d : PqInnerData) → IsPqInnerData d → length (marshal_binary d) ≡ pq_inner_data_size
unfolding marshal_binary
length-marshal_binary d w =
    let tail = d.server_nonce ++ d.new_nonce in
    omega (
      arith,
      length-append (put_be 8 d.pq) (put_be 8 d.p ++ (put_be 8 d.q ++ (d.nonce ++ tail))),
      length-append (put_be 8 d.p) (put_be 8 d.q ++ (d.nonce ++ tail)),
      length-append (put_be 8 d.q) (d.nonce ++ tail),
      length-append d.nonce tail,
      length-append d.server_nonce d.new_nonce,
      length-put_be 8 d.pq,
      length-put_be 8 d.p,
      length-put_be 8 d.q,
      w.nonce_size,
      w.server_nonce_size,
      w.new_nonce_size,
    )

module _ (d : PqInnerData) (w : IsPqInnerData d) where
  behind_integers :
      (i j n : ℕ)
      → 24 + j ≡ i
      → slice i n (marshal_binary d) ≡ slice j n (d.nonce ++ (d.server_nonce ++ d.new_nonce))
  unfolding marshal_binary
  behind_integers i j n e =
      slice_skip i (16 + j) n (put_be 8 d.pq) _ (omega (arith, e, length-put_be 8 d.pq))
      ∙ slice_skip (16 + j) (8 + j) n (put_be 8 d.p) _ (omega (arith, length-put_be 8 d.p))
      ∙ slice_skip (8 + j) j n (put_be 8 d.q) _ (omega (arith, length-put_be 8 d.q))

  pq_field : slice 0 8 (marshal_binary d) ≡ put_be 8 d.pq
  unfolding marshal_binary
  pq_field = slice_first 8 _ _ (length-put_be 8 d.pq)

  p_field : slice 8 8 (marshal_binary d) ≡ put_be 8 d.p
  unfolding marshal_binary
  p_field = slice_front 8 8 _ _ (length-put_be 8 d.pq) (length-put_be 8 d.p) _

  q_field : slice 16 8 (marshal_binary d) ≡ put_be 8 d.q
  unfolding marshal_binary
  q_field =
      slice_skip 16 8 8 _ _ (omega (arith, length-put_be 8 d.pq))
      ∙ slice_front 8 8 _ _ (length-put_be 8 d.p) (length-put_be 8 d.q) _

  nonce_field : slice 24 16 (marshal_binary d) ≡ d.nonce
  nonce_field = behind_integers 24 0 16 refl ∙ slice_first 16 _ _ w.nonce_size

  server_nonce_field : slice 40 16 (marshal_binary d) ≡ d.server_nonce
  server_nonce_field =
      behind_integers 40 16 16 refl ∙ slice_front 16 16 _ _ w.nonce_size w.server_nonce_size _

  new_nonce_field : slice 56 32 (marshal_binary d) ≡ d.new_nonce
  new_nonce_field =
      behind_integers 56 32 32 refl
      ∙ slice_skip 32 16 32 _ _ (omega (arith, w.nonce_size))
      ∙ slice_last 16 32 _ _ w.server_nonce_size w.new_nonce_size

  -- Inner data whose integers have 64 bits and whose nonces have 16, 16 and 32 bytes is read back from
  -- its 88 bytes.
  pub unmarshal_binary-marshal_binary : unmarshal_binary (marshal_binary d) ≡ ok d
  unfolding unmarshal_binary
  unmarshal_binary-marshal_binary =
      rw
        (
          length-marshal_binary d w,
          pq_field,
          p_field,
          q_field,
          nonce_field,
          server_nonce_field,
          new_nonce_field,
          get_be-put_be 8 d.pq w.pq_fits,
          get_be-put_be 8 d.p w.p_fits,
          get_be-put_be 8 d.q w.q_fits,
        )
        refl

-- ===== src/Mtproto/Handshake/Agreement.antt =====
-- A whole handshake between the two halves, with nobody in between.
pub mod Honest
pub mod Opened
pub mod Factored
pub mod Values
pub mod SameKey
use messaging_app.Prelude.{List, Option, Result, ok, some, ℕ, ◌>>=◌, ◌>>◌}
use messaging_app.Mtproto.{Crypto, Error}
use messaging_app.Mtproto.Handshake.{Json, ResPq}
use messaging_app.Mtproto.Handshake.Client.{
  ClientHandshake, on_dh_gen_ok, on_res_pq, on_server_dh_params,
}
use messaging_app.Mtproto.Handshake.Server.{
  ServerHandshake, ServerKey, req_dh_params, set_client_dh_params,
}
use messaging_app.Mtproto.Keys.{AuthKey}

-- What the two sides draw and read: the numbers for the new nonce and the two exponents, the reader of
-- padding, the bound of the search for factors, and the server's clock.
pub record Draws : Type 0 where
  pub new_nonce : List ℕ
  pub server_exponent : ℕ
  pub client_exponent : ℕ
  pub random : ℕ → Option (List ℕ)
  pub steps : ℕ
  pub now : ℕ

-- From the server's challenge to the two keys, the server's first.
unfoldable pub exchange :
    Crypto
    → Json
    → ServerKey
    → Draws
    → ResPq
    → ServerHandshake
    → ClientHandshake
    → Result Error (AuthKey × AuthKey)
exchange crypto json key d res h c = do
  let (c1, factors) = on_res_pq d.steps (some d.new_nonce) res c
  req ← factors
  let (h1, answer) = req_dh_params crypto json key d.now (some d.server_exponent) d.random req h
  params ← answer
  let (c2, value) = on_server_dh_params crypto json (some d.client_exponent) d.random params c1
  sent ← value
  let (h2, confirmed) = set_client_dh_params crypto json d.now sent h1
  (server_key, done) ← confirmed
  client_key ← on_dh_gen_ok crypto json done c2
  ok (server_key, client_key)

-- ===== src/Mtproto/Handshake/Agreement/SameKey.antt =====
-- The end of a handshake with nobody in between.
use messaging_app.Prelude.{List, Option, ok, ℕ, ◌≡◌}
use messaging_app.Mtproto.{Crypto}
use messaging_app.Mtproto.Handshake.{Json, PqInnerData, ReqDhParams, ServerDhParams}
use messaging_app.Mtproto.Handshake.Server.{
  ServerHandshake, ServerKey, answer_dh, check_req_dh_params, req_dh_params,
}

pub req_dh_params_accepted :
    (crypto : Crypto) (json : Json) (key : ServerKey) (now : ℕ) (drawn : Option ℕ)
    (random : ℕ → Option (List ℕ)) (req : ReqDhParams) (h h1 : ServerHandshake)
    (inner : PqInnerData) (params : ServerDhParams)
    → check_req_dh_params key now req h ≡ ok inner
    → answer_dh crypto json now drawn random (record h { new_nonce = inner.new_nonce })
      ≡ (h1, ok params)
    → req_dh_params crypto json key now drawn random req h ≡ (h1, ok params)
unfolding req_dh_params
req_dh_params_accepted crypto json key now drawn random req h h1 inner params checked made =
    rw (req_dh_params, checked) made

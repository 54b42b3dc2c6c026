-- ===== src/Gateway/Plain.antt =====
-- services/realtime-gateway/internal/session.go: the handshake over plain messages.
use messaging_app.Prelude.{
  List, Result, err, if◌then◌else◌, none, not, ok, refuse, some, ℕ, ◌==◌, ◌>>=◌, ◌>>◌,
}
use messaging_app.Gateway.{
  Body, Code, Env, Failure, State, bad_constructor, dh_gen_failed, dh_gen_ok, dh_params_invalid,
  handshake_error, lift, no_salt, rate_limited, res_pq, server_dh_params, session_store_failed,
  transport,
}
use messaging_app.Gateway.Send.{send_plain}
use messaging_app.Gateway.Store.{save}
use messaging_app.Mtproto.Envelope.{decode_plain}
use messaging_app.Mtproto.Handshake.{DhGenOk}
use messaging_app.Mtproto.Handshake.Server.{req_dh_params, req_pq, set_client_dh_params}
use messaging_app.Mtproto.Keys.{AuthKey}
use messaging_app.Mtproto.Tl.{
  c_dh_gen_ok, c_handshake_error, c_req_dh_params, c_req_pq, c_res_pq, c_server_dh_params,
  c_set_client_dh_params, decode, peek_constructor,
}

-- The answer to a step that failed: a generic code, and the error ends the connection.
unfoldable pub reject : Env → Code → Failure → State → State × Result Failure Unit
reject env code e st = (
  record st { session = (send_plain env c_handshake_error (handshake_error code) st.session).0 },
  err e,
)

-- What follows from `sendPlain` for the whole state.
unfoldable pub answer_plain : Env → ℕ → Body → State → State × Result Failure Unit
answer_plain env id body st =
    let (s, r) = send_plain env id body st.session in (record st { session = s }, r)

-- `CReqPQ`
unfoldable pub plain_req_pq : Env → List ℕ → State → State × Result Failure Unit
plain_req_pq env payload st = elim (decode env.unmarshal_req_pq payload) [
  | err e ↦ (st, err (transport e))
  | ok nonce ↦
      let s = st.session in
      let (h, result) =
        req_pq env.server_key env.now env.server_nonce env.primes nonce s.handshake in
      let st1 = record st { session = record s { handshake = h } } in
      elim result [
        | err e ↦ (st1, err (transport e))
        | ok res ↦ answer_plain env c_res_pq (res_pq res) st1
      ]
]

-- `CReqDHParams`
unfoldable pub plain_req_dh : Env → List ℕ → State → State × Result Failure Unit
plain_req_dh env payload st = elim (decode env.unmarshal_req_dh payload) [
  | err e ↦ (st, err (transport e))
  | ok req ↦
      let s = st.session in
      let (h, result) =
        req_dh_params env.crypto env.json env.server_key env.now env.exponent env.random req
          s.handshake in
      let st1 = record st { session = record s { handshake = h } } in
      elim result [
        | err e ↦ reject env dh_params_invalid (transport e) st1
        | ok res ↦ answer_plain env c_server_dh_params (server_dh_params res) st1
      ]
]

-- What follows the key of `CSetClientDHParams`: it is saved before it is confirmed.
unfoldable pub adopt_key : Env → AuthKey → DhGenOk → State → State × Result Failure Unit
adopt_key env key confirmation st = elim (save env key st.shared) [
  | err e ↦ reject env session_store_failed e st
  | ok shared ↦
      let st1 = record st {
        session = record (st.session) { auth_key = some key };
        shared = shared;
      } in
      elim env.new_salt [
        | none ↦ (st1, err no_salt)
        | some salt ↦
            answer_plain env c_dh_gen_ok (dh_gen_ok confirmation)
              (record st1 { session = record (st1.session) { salt = salt } })
      ]
]

-- `CSetClientDHParams`
unfoldable pub plain_set_dh : Env → List ℕ → State → State × Result Failure Unit
plain_set_dh env payload st = elim (decode env.unmarshal_set_dh payload) [
  | err e ↦ (st, err (transport e))
  | ok req ↦
      let s = st.session in
      let (h, result) = set_client_dh_params env.crypto env.json env.now req s.handshake in
      let st1 = record st { session = record s { handshake = h } } in
      elim result [
        | err e ↦ reject env dh_gen_failed (transport e) st1
        | ok (key, confirmation) ↦ adopt_key env key confirmation st1
      ]
]

-- The choice of the handler by the constructor.
unfoldable pub route_plain : Env → ℕ → List ℕ → State → State × Result Failure Unit
route_plain env c payload st =
    if c == c_req_pq
    then plain_req_pq env payload st
    else if c == c_req_dh_params
    then plain_req_dh env payload st
    else if c == c_set_client_dh_params
    then plain_set_dh env payload st
    else (st, err bad_constructor)

-- The payload of a plain frame and its constructor, if the address may shake hands.
unfoldable pub open_plain : Env → List ℕ → Result Failure (ℕ × List ℕ)
open_plain env frame = do
  (msg_id, payload) ← lift (decode_plain frame)
  c ← lift (peek_constructor payload)
  refuse (not env.handshake_allowed) rate_limited
  ok (c, payload)

-- `handlePlain`
unfoldable pub handle_plain : Env → List ℕ → State → State × Result Failure Unit
handle_plain env frame st = elim (open_plain env frame) [
  | err e ↦ (st, err e)
  | ok (c, payload) ↦ route_plain env c payload st
]

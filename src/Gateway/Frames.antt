-- ===== src/Gateway/Frames.antt =====
-- services/realtime-gateway/internal/session.go: the way of a frame through a session.
use messaging_app.Prelude.{
  Bool, List, Option, Result, [], err, false, if◌then◌else◌, none, not, ok, some, true, ℕ, ◌&&◌,
  ◌==◌, ◌∷◌,
}
use messaging_app.Gateway.{
  Env, Failure, Session, State, bad_msg, bad_server_salt, new_session_created, plain_on_encrypted,
  seconds, transport, unknown_key,
}
use messaging_app.Gateway.Dispatch.{attach_identity, dispatch}
use messaging_app.Gateway.Plain.{handle_plain}
use messaging_app.Gateway.Send.{queue_ack, send_service}
use messaging_app.Gateway.Store.{load, load_binding}
use messaging_app.Mtproto.{Error, msg_id_parity, msg_id_replay, msg_id_too_new}
use messaging_app.Mtproto.Envelope.{Message, decrypt, is_content_related, peek_auth_key_id}
use messaging_app.Mtproto.Keys.{AuthKey, client_to_server}
use messaging_app.Mtproto.MsgId.{adopt_peer_time, check}
use messaging_app.Mtproto.Tl.{c_bad_msg_notify, c_bad_server_salt, c_new_session_reset}

-- `code` of `checkEnvelope`
unfoldable pub bad_msg_code : Error → ℕ
bad_msg_code msg_id_too_new = 17
bad_msg_code msg_id_replay = 19
bad_msg_code msg_id_parity = 18
bad_msg_code _ = 16

-- `checkEnvelope`: whether the message goes on. Its id is remembered before the salt is looked at.
unfoldable pub check_envelope : Env → Message → Session → Session × Bool
check_envelope env msg s = elim (check env.order env.now msg.msg_id s.validator) [
  | err e ↦
      (send_service env c_bad_msg_notify (bad_msg msg.msg_id msg.seq_no (bad_msg_code e)) s, false)
  | ok validator ↦
      let s1 = record s { validator = validator } in
      if not (s.salt == 0) && not (msg.salt == s.salt)
      then (
        send_service env c_bad_server_salt (bad_server_salt msg.msg_id msg.seq_no 48 s.salt) s1,
        false,
      )
      else (s1, true)
]

-- The session id of an accepted message.
unfoldable pub note_session : Env → Message → Session → Session
note_session env msg s =
    if s.session_id == 0
    then record s {
      session_id = msg.session_id;
      msg_ids = adopt_peer_time msg.msg_id (seconds env) s.msg_ids;
    }
    else if not (msg.session_id == s.session_id)
    then send_service env c_new_session_reset (new_session_created msg.msg_id msg.session_id s.salt)
        (record s { session_id = msg.session_id; seq_no = 0 })
    else s

-- What follows the decryption of a frame.
unfoldable pub accept : Env → Message → State → State
accept env msg st =
    let (s, goes_on) = check_envelope env msg st.session in
    if goes_on
    then (let s1 = note_session env msg s in
        let s2 = if is_content_related msg then queue_ack msg.msg_id s1 else s1 in
        dispatch env msg (record st { session = s2 }))
    else record st { session = s }

-- The decryption under the session's key.
unfoldable pub receive : Env → AuthKey → List ℕ → State → State × Result Failure Unit
receive env k frame st = elim (decrypt env.crypto k frame client_to_server) [
  | err e ↦ (st, err (transport e))
  | ok msg ↦ (accept env msg st, ok tt)
]

-- The identity that is bound to a key that was loaded, if any.
unfoldable pub restore_binding : Env → ℕ → State → State
restore_binding env id st = elim (load_binding env id st.shared) [
  | err e ↦ st
  | ok (user, device) ↦ record st {
    session =
        (attach_identity env user (record (st.session) { user_id = user; device_id = device })).0;
  }
]

-- A session without a key takes the one that the store has under the frame's id.
unfoldable pub resume : Env → ℕ → List ℕ → State → State × Result Failure Unit
resume env id frame st = elim (load env id st.shared) [
  | err e ↦ (st, err unknown_key)
  | ok k ↦
      receive env k frame
        (restore_binding env id (record st { session = record (st.session) { auth_key = some k } }))
]

-- The two phases of `handleFrame`: the key of the session decides which frames are legal.
unfoldable pub route_frame : Env → ℕ → List ℕ → Option AuthKey → State → State × Result Failure Unit
route_frame env id frame none st =
    if id == 0 then handle_plain env frame st else resume env id frame st
route_frame env id frame (some k) st =
    if id == 0 then (st, err plain_on_encrypted) else receive env k frame st

-- `handleFrame`; an error ends the connection.
unfoldable pub handle_frame : Env → List ℕ → State → State × Result Failure Unit
handle_frame env frame st = elim (peek_auth_key_id frame) [
  | err e ↦ (st, err (transport e))
  | ok id ↦ route_frame env id frame (st.session.auth_key) st
]

-- The loop of `Run` over the frames that come: the first error ends it.
unfoldable pub run : List (Env × List ℕ) → State → State
run [] st = st
run ((env, frame) ∷ rest) st =
    let (st1, r) = handle_frame env frame st in
    let last = run rest st1 in elim r [ err e ↦ st1 | ok u ↦ last ]

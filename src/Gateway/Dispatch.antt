-- ===== src/Gateway/Dispatch.antt =====
-- services/realtime-gateway/internal/dispatch.go: the handling of a decrypted message.
use messaging_app.Prelude.{
  Bool, List, Result, [], err, false, if◌then◌else◌, length, ltb, none, ok, some, ℕ, ◌==◌, ◌||◌,
  ◌∷◌,
}
use messaging_app.Gateway.{
  Call, Contained, Env, Failure, Session, Shared, State, auth_key_missing, auth_key_unbound,
  auth_token_invalid, auth_unavailable, bad_request, bind_result, container_too_large,
  method_not_found, ok_body, pong, seconds, subscribe_error, subscribe_failed,
}
use messaging_app.Gateway.Send.{queue_ack, reply, rpc_error_to, rpc_result_to, send_service}
use messaging_app.Gateway.Store.{delete, save_binding}
use messaging_app.Mtproto.Envelope.{Message, is_content_related}
use messaging_app.Mtproto.Keys.{AuthKey, wipe}
use messaging_app.Mtproto.Tl.{
  c_auth_bind, c_destroy_session, c_get_dialogs, c_get_difference, c_get_history, c_msg_container,
  c_msgs_ack, c_ok, c_ping, c_pong, c_read_history, c_send_message, c_set_typing, decode,
  peek_constructor,
}

-- The effect of a function on the session alone.
unfoldable pub on_session : (Session → Session) → State → State
on_session f st = record st { session = f st.session }

-- `_, already := s.channels[channel]`
unfoldable pub is_subscribed : ℕ → List ℕ → Bool
is_subscribed user [] = false
is_subscribed user (c ∷ channels) = c == user || is_subscribed user channels

-- `attachIdentity`: the channel is given up again if the subscription fails. Presence is advisory.
unfoldable pub attach_identity : Env → ℕ → Session → Session × Result Failure Unit
attach_identity env user s =
    if is_subscribed user s.channels
    then (s, ok tt)
    else if env.subscribes
    then (record s { channels = user ∷ s.channels }, ok tt)
    else (s, err subscribe_failed)

-- `handlePing`; the idle timeout that it may set is the connection's.
unfoldable pub handle_ping : Env → Message → Session → Session
handle_ping env msg s =
    let ping : ℕ × ℕ = elim (decode env.unmarshal_ping msg.body) [ err e ↦ (0, 0) | ok p ↦ p ] in
    send_service env c_pong (pong msg.msg_id ping.0 (seconds env)) s

-- `handleDestroySession`: an error of the store is only logged, and the key is wiped in place.
unfoldable pub handle_destroy_session : Env → State → State
handle_destroy_session env st = elim (st.session.auth_key) [
  | none ↦ on_session (send_service env c_ok ok_body) st
  | some k ↦
      let shared : Shared = elim (delete env k.id st.shared) [ err e ↦ st.shared | ok m ↦ m ] in
      let wiped = record (st.session) { auth_key = some (wipe k) } in
      record { session = send_service env c_ok ok_body wiped; shared = shared }
]

-- The end of `handleAuthBind`: a salt is made if there is none, and the result is sent.
unfoldable pub confirm_bind : Env → Message → Session → Session
confirm_bind env msg s =
    let salt = if s.salt == 0 then elim env.new_salt [ none ↦ 0 | some n ↦ n ] else s.salt in
    let s1 = record s { salt = salt } in
    let result = bind_result s.user_id s.device_id salt s.session_id (seconds env) in
    rpc_result_to env msg.msg_id (env.marshal result) s1

-- What `handleAuthBind` does with the identity of a token.
unfoldable pub bind_identity : Env → Message → AuthKey → ℕ → ℕ → State → State
bind_identity env msg k user device st =
    let s1 = record (st.session) { user_id = user; device_id = device } in
    let shared : Shared = elim (save_binding env k.id user device st.shared) [
      | err e ↦ st.shared
      | ok m ↦ m
    ] in
    let (s2, attached) = attach_identity env user s1 in
    record {
      session = elim attached [
        | err e ↦ rpc_error_to env msg.msg_id 503 subscribe_error s2
        | ok u ↦ confirm_bind env msg s2
      ];
      shared = shared;
    }

-- `handleAuthBind`
unfoldable pub handle_auth_bind : Env → Message → State → State
handle_auth_bind env msg st = elim (decode env.unmarshal_bind msg.body) [
  | err e ↦ on_session (rpc_error_to env msg.msg_id 400 bad_request) st
  | ok token ↦ elim (st.session.auth_key) [
    | none ↦ on_session (rpc_error_to env msg.msg_id 401 auth_key_missing) st
    | some k ↦ elim (env.resolve_token token) [
      | err status ↦
          if status == 401
          then on_session (rpc_error_to env msg.msg_id 401 auth_token_invalid) st
          else on_session (rpc_error_to env msg.msg_id 503 auth_unavailable) st
      | ok (user, device) ↦ bind_identity env msg k user device st
    ]
  ]
]

-- The methods that `handleAPI` forwards.
unfoldable pub is_method : ℕ → Bool
is_method c =
    c == c_send_message
    || (c == c_get_history
        || (c == c_get_difference || (c == c_read_history || c == c_get_dialogs)))

-- A call of another service with the session's identity.
unfoldable pub call_of : ℕ → List ℕ → Session → Call
call_of c request s = record {
  user_id = s.user_id;
  device_id = s.device_id;
  method = c;
  request = request;
}

-- `handleAPI`: typing is forwarded without waiting for the answer.
unfoldable pub handle_api : Env → Message → ℕ → Session → Session
handle_api env msg c s =
    if is_method c || c == c_set_typing
    then elim (decode (env.unmarshal_request c) msg.body) [
      | err e ↦ rpc_error_to env msg.msg_id 400 bad_request s
      | ok request ↦
          let call = call_of c request s in
          let s1 = record s { calls = call ∷ s.calls } in
          if c == c_set_typing
          then rpc_result_to env msg.msg_id (env.marshal ok_body) s1
          else reply env msg.msg_id (env.upstream call) s1
    ]
    else rpc_error_to env msg.msg_id 400 method_not_found s

-- `dispatch` of a message that is no container.
unfoldable pub route : Env → ℕ → Message → State → State
route env c msg st =
    if c == c_ping
    then on_session (handle_ping env msg) st
    else if c == c_msgs_ack
    then st
    else if c == c_destroy_session
    then handle_destroy_session env st
    else if c == c_auth_bind
    then handle_auth_bind env msg st
    else if st.session.user_id == 0
    then on_session (rpc_error_to env msg.msg_id 401 auth_key_unbound) st
    else on_session (handle_api env msg c) st

-- One message of a container: a container in a container is passed over.
unfoldable pub dispatch_contained : Env → Message → Contained → State → State
dispatch_contained env msg inner st = elim (peek_constructor inner.payload) [
  | err e ↦ st
  | ok c ↦
      let sub = record msg { msg_id = inner.msg_id; seq_no = inner.seq_no; body = inner.payload } in
      if c == c_msg_container
      then st
      else route env c sub
          (if is_content_related sub then on_session (queue_ack sub.msg_id) st else st)
]

-- The loop of `handleContainer`
unfoldable pub dispatch_all : Env → Message → List Contained → State → State
dispatch_all env msg [] st = st
dispatch_all env msg (inner ∷ rest) st =
    dispatch_all env msg rest (dispatch_contained env msg inner st)

-- `maxContained`
abbrev pub max_contained : ℕ
max_contained = 64

-- `handleContainer`
unfoldable pub handle_container : Env → Message → State → State
handle_container env msg st = elim (decode env.unmarshal_container msg.body) [
  | err e ↦ st
  | ok messages ↦
      if ltb max_contained (length messages)
      then on_session (rpc_error_to env msg.msg_id 400 container_too_large) st
      else dispatch_all env msg messages st
]

-- `dispatch`: none of its branches ends the connection.
unfoldable pub dispatch : Env → Message → State → State
dispatch env msg st = elim (peek_constructor msg.body) [
  | err e ↦ st
  | ok c ↦ if c == c_msg_container then handle_container env msg st else route env c msg st
]

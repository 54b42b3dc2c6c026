-- ===== src/Gateway/Send.antt =====
-- services/realtime-gateway/internal/session.go: what a session writes.
use messaging_app.Prelude.{
  Bool, List, Option, Result, [], err, false, if◌then◌else◌, ltb, none, ok, some, true, ℕ, ◌&&◌,
  ◌++◌, ◌==◌, ◌∷◌,
}
use messaging_app.Gateway.{
  Body, Code, Env, Failure, Session, UpstreamError, bad_server_salt, encode_failed, flood_wait,
  internal, msgs_ack, no_key, not_written, rpc_error, rpc_result, seconds, transport, update,
  upstream_code,
}
use messaging_app.Mtproto.Envelope.{Message, encode_plain, encrypt}
use messaging_app.Mtproto.Keys.{AuthKey, server_to_client}
use messaging_app.Mtproto.MsgId.{next_id, next_seq_no}
use messaging_app.Mtproto.Tl.{
  c_bad_server_salt, c_msgs_ack, c_rpc_error, c_rpc_result, c_update, encode,
}

-- `KindFromServerResponse` and `KindFromServerPush`
abbrev pub kind_from_server_response : ℕ
kind_from_server_response = 1

abbrev pub kind_from_server_push : ℕ
kind_from_server_push = 3

-- `s.conn.WriteFrame`
unfoldable pub write_frame : Env → List ℕ → Session → Session × Result Failure Unit
write_frame env frame s =
    if env.writable then (record s { written = frame ∷ s.written }, ok tt) else (s, err not_written)

-- `sendPlain`
unfoldable pub send_plain : Env → ℕ → Body → Session → Session × Result Failure Unit
send_plain env id body s = elim (encode id (env.marshal body)) [
  | err e ↦ (s, err (transport e))
  | ok payload ↦
      let (msg_id, ids) = next_id kind_from_server_response (seconds env) s.msg_ids in
      write_frame env (encode_plain msg_id payload) (record s { msg_ids = ids })
]

-- The message that `sendEncrypted` makes of a payload, and the session with its counters moved on.
unfoldable pub make_message : Env → Bool → List ℕ → Session → Message × Session
make_message env content_related payload s =
    let kind = if content_related then kind_from_server_response else kind_from_server_push in
    let (msg_id, ids) = next_id kind (seconds env) s.msg_ids in
    let (seq_no, sent) = next_seq_no content_related s.seq_no in
    (
      record {
        salt = s.salt;
        session_id = s.session_id;
        msg_id = msg_id;
        seq_no = seq_no;
        body = payload;
      },
      record s { msg_ids = ids; seq_no = sent },
    )

-- Its encryption and writing.
unfoldable pub write_message : Env → AuthKey → Message × Session → Session × Result Failure Unit
write_message env k (msg, s) = elim (encrypt env.crypto env.random k msg server_to_client) [
  | err e ↦ (s, err (transport e))
  | ok frame ↦ write_frame env frame s
]

-- `sendEncrypted`
unfoldable pub send_encrypted : Env → ℕ → Body → Bool → Session → Session × Result Failure Unit
send_encrypted env id body content_related s = elim s.auth_key [
  | none ↦ (s, err no_key)
  | some k ↦ elim (encode id (env.marshal body)) [
    | err e ↦ (s, err (transport e))
    | ok payload ↦ write_message env k (make_message env content_related payload s)
  ]
]

-- `sendService`: an error is only logged.
unfoldable pub send_service : Env → ℕ → Body → Session → Session
send_service env id body s = (send_encrypted env id body false s).0

-- `rpcError`
unfoldable pub rpc_error_to : Env → ℕ → ℕ → Code → Session → Session
rpc_error_to env req_id status code s =
    (send_encrypted env c_rpc_error (rpc_error req_id status code) true s).0

-- `rpcResult`; `result` is the marshalled value.
unfoldable pub rpc_result_to : Env → ℕ → Option (List ℕ) → Session → Session
rpc_result_to env req_id none s = rpc_error_to env req_id 500 encode_failed s
rpc_result_to env req_id (some result) s =
    (send_encrypted env c_rpc_result (rpc_result req_id result) true s).0

-- `reply`
unfoldable pub reply : Env → ℕ → Result (Option UpstreamError) (List ℕ) → Session → Session
reply env req_id (ok result) s = rpc_result_to env req_id (some result) s
reply env req_id (err none) s = rpc_error_to env req_id 503 internal s
reply env req_id (err (some e)) s =
    if e.status == 429 && ltb 0 e.retry_after
    then rpc_error_to env req_id 420 (flood_wait e.retry_after) s
    else rpc_error_to env req_id e.status (upstream_code e.code) s

-- `queueAck`
unfoldable pub queue_ack : ℕ → Session → Session
queue_ack msg_id s = record s { pending_acks = s.pending_acks ++ (msg_id ∷ []) }

-- `flushAcks`
unfoldable pub flush_acks : Env → Session → Session
flush_acks env s = elim s.pending_acks [
  | [] ↦ s
  | id ∷ ids ↦ send_service env c_msgs_ack (msgs_ack (id ∷ ids)) (record s { pending_acks = [] })
]

-- `sendUpdate`: with no key there is nothing to encrypt with yet.
unfoldable pub send_update : Env → List ℕ → Session → Session × Result Failure Unit
send_update env u s = elim s.auth_key [
  | none ↦ (s, ok tt)
  | some k ↦ send_encrypted env c_update (update u) true s
]

-- The rotation of the salt in `heartbeatLoop`
unfoldable pub rotate_salt : Env → Session → Session
rotate_salt env s = elim env.new_salt [
  | none ↦ s
  | some salt ↦
      send_service env c_bad_server_salt (bad_server_salt 0 0 0 salt) (record s { salt = salt })
]

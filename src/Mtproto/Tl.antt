-- ===== src/Mtproto/Tl.antt =====
-- pkg/mtproto/tl.go: the constructor ids, and the payloads that they open.
use messaging_app.Prelude.{
  List, Option, Result, drop, err, length, ltb, none, ok, refuse, some, take, ℕ, ◌++◌, ◌>>◌,
}
use messaging_app.Mtproto.{Error, bad_json, short_payload}
use messaging_app.Prelude.Bytes.{get_le, put_le}

-- The handshake
abbrev pub c_req_pq : ℕ
c_req_pq = 0x60469778

abbrev pub c_res_pq : ℕ
c_res_pq = 0x05162463

abbrev pub c_req_dh_params : ℕ
c_req_dh_params = 0xd712e4be

abbrev pub c_server_dh_params : ℕ
c_server_dh_params = 0xd0e8075c

abbrev pub c_set_client_dh_params : ℕ
c_set_client_dh_params = 0xf5045f1f

abbrev pub c_dh_gen_ok : ℕ
c_dh_gen_ok = 0x3bcbf734

abbrev pub c_handshake_error : ℕ
c_handshake_error = 0x0a1b2c3d

-- The service
abbrev pub c_ping : ℕ
c_ping = 0x7abe77ec

abbrev pub c_pong : ℕ
c_pong = 0x347773c5

abbrev pub c_msgs_ack : ℕ
c_msgs_ack = 0x62d6b459

abbrev pub c_bad_msg_notify : ℕ
c_bad_msg_notify = 0xa7eff811

abbrev pub c_bad_server_salt : ℕ
c_bad_server_salt = 0xedab447b

abbrev pub c_new_session_reset : ℕ
c_new_session_reset = 0x9ec20908

abbrev pub c_msg_container : ℕ
c_msg_container = 0x73f1f8dc

abbrev pub c_rpc_error : ℕ
c_rpc_error = 0x2144ca19

abbrev pub c_rpc_result : ℕ
c_rpc_result = 0xf35c6d01

abbrev pub c_destroy_session : ℕ
c_destroy_session = 0xe7512126

-- The API
abbrev pub c_auth_bind : ℕ
c_auth_bind = 0x10000001

abbrev pub c_send_message : ℕ
c_send_message = 0x10000010

abbrev pub c_get_history : ℕ
c_get_history = 0x10000012

abbrev pub c_get_difference : ℕ
c_get_difference = 0x10000014

abbrev pub c_read_history : ℕ
c_read_history = 0x10000016

abbrev pub c_set_typing : ℕ
c_set_typing = 0x10000018

abbrev pub c_get_dialogs : ℕ
c_get_dialogs = 0x10000019

abbrev pub c_update : ℕ
c_update = 0x10000030

abbrev pub c_ok : ℕ
c_ok = 0x10000031

-- `Encode`: the id and the body that json.Marshal gives, `none` for its error.
unfoldable pub encode : ℕ → Option (List ℕ) → Result Error (List ℕ)
encode id none = err bad_json
encode id (some body) = ok (put_le 4 id ++ body)

-- `PeekConstructor`
unfoldable pub peek_constructor : List ℕ → Result Error ℕ
peek_constructor payload = do
  refuse (ltb (length payload) 4) short_payload
  ok (get_le (take 4 payload))

-- `Decode`, given json.Unmarshal at the type of the value
unfoldable pub decode : {A : Type 0} → (List ℕ → Option A) → List ℕ → Result Error A
decode unmarshal payload = do
  refuse (ltb (length payload) 4) short_payload
  elim (unmarshal (drop 4 payload)) [ none ↦ err bad_json | some v ↦ ok v ]

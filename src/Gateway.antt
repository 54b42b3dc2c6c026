-- ===== src/Gateway.antt =====
-- services/realtime-gateway/internal/session.go: the state of a session, and what it gets from outside.
pub mod Send
pub mod Store
pub mod Plain
pub mod Dispatch
pub mod Frames
pub mod Keeps
pub mod Cases
pub mod Keyed
pub mod Handled
pub mod Phases
mod Tests
pub mod Destroyed
use messaging_app.Prelude.{Bool, List, Option, Result, [], err, none, ok, ℕ, ◌/◌}
use messaging_app.Mtproto.{Crypto, Error}
use messaging_app.Mtproto.Handshake.{
  DhGenOk, Json, ReqDhParams, ResPq, ServerDhParams, SetClientDhParams,
}
use messaging_app.Mtproto.Handshake.Server.{ServerHandshake, ServerKey, new_server_handshake}
use messaging_app.Mtproto.Keys.{AuthKey}
use messaging_app.Mtproto.MsgId.{Generator, Validator, new_validator}

-- What ends a connection or a call; `transport` is an error of the package mtproto.
pub data Failure : Type 0 where
  transport : Error → Failure
  no_key not_written plain_on_encrypted unknown_key no_session : Failure
  rate_limited bad_constructor store_failed no_salt subscribe_failed : Failure

-- An error of the package, passed on.
unfoldable pub lift : {A : Type 0} → Result Error A → Result Failure A
lift (ok a) = ok a
lift (err e) = err (transport e)

-- The codes of errors that clients see.
pub data Code : Type 0 where
  dh_params_invalid dh_gen_failed session_store_failed : Code
  auth_key_unbound container_too_large bad_request auth_key_missing auth_token_invalid : Code
  auth_unavailable subscribe_error method_not_found encode_failed internal : Code
  flood_wait : ℕ → Code
  upstream_code : ℕ → Code

-- The values that the session sends.
pub data Body : Type 0 where
  res_pq : ResPq → Body
  server_dh_params : ServerDhParams → Body
  dh_gen_ok : DhGenOk → Body
  handshake_error : Code → Body
  bad_msg : ℕ → ℕ → ℕ → Body
  bad_server_salt : ℕ → ℕ → ℕ → ℕ → Body
  new_session_created : ℕ → ℕ → ℕ → Body
  msgs_ack : List ℕ → Body
  pong : ℕ → ℕ → ℕ → Body
  ok_body : Body
  bind_result : ℕ → ℕ → ℕ → ℕ → ℕ → Body
  rpc_result : ℕ → List ℕ → Body
  rpc_error : ℕ → ℕ → Code → Body
  update : List ℕ → Body

-- A call of another service for a user: the device, the method and the request.
pub record Call : Type 0 where
  pub user_id : ℕ
  pub device_id : ℕ
  pub method : ℕ
  pub request : List ℕ

-- An error of another service: the status, the code, and the seconds to wait.
pub record UpstreamError : Type 0 where
  pub status : ℕ
  pub code : ℕ
  pub retry_after : ℕ

-- A message of a container.
pub record Contained : Type 0 where
  pub msg_id : ℕ
  pub seq_no : ℕ
  pub payload : List ℕ

-- The state of `Session` that one goroutine reads and writes, with what it has written to the connection
-- and the calls it has made of other services, the last first. No user, salt or session is 0, no
-- key `none`. A channel stands for its user.
pub record Session : Type 0 where
  pub handshake : ServerHandshake
  pub auth_key : Option AuthKey
  pub session_id : ℕ
  pub salt : ℕ
  pub msg_ids : Generator
  pub seq_no : ℕ
  pub validator : Validator
  pub user_id : ℕ
  pub device_id : ℕ
  pub pending_acks : List ℕ
  pub channels : List ℕ
  pub written : List (List ℕ)
  pub calls : List Call

-- The keys and bindings of the session store, by auth key id.
pub record Shared : Type 0 where
  pub keys : List (ℕ × List ℕ)
  pub bindings : List (ℕ × (ℕ × ℕ))

-- A session and the store that it shares with others.
pub record State : Type 0 where
  pub session : Session
  pub shared : Shared

-- What the session gets from outside while it handles a frame: the libraries, the clock, the random
-- reader, the readings of JSON, and the answers of Redis and the other services.
pub record Env : Type 0 where
  pub crypto : Crypto
  pub json : Json
  pub server_key : ServerKey
  pub now : ℕ
  pub order : List (ℕ × ℕ) → List (ℕ × ℕ)
  pub random : ℕ → Option (List ℕ)
  pub server_nonce : Option (List ℕ)
  pub primes : List ℕ
  pub exponent : Option ℕ
  pub new_salt : Option ℕ
  pub marshal : Body → Option (List ℕ)
  pub unmarshal_req_pq : List ℕ → Option (List ℕ)
  pub unmarshal_req_dh : List ℕ → Option ReqDhParams
  pub unmarshal_set_dh : List ℕ → Option SetClientDhParams
  pub unmarshal_ping : List ℕ → Option (ℕ × ℕ)
  pub unmarshal_container : List ℕ → Option (List Contained)
  pub unmarshal_bind : List ℕ → Option (List ℕ)
  pub unmarshal_request : ℕ → List ℕ → Option (List ℕ)
  pub resolve_token : List ℕ → Result ℕ (ℕ × ℕ)
  pub upstream : Call → Result (Option UpstreamError) (List ℕ)
  pub handshake_allowed : Bool
  pub writable : Bool
  pub saves : Bool
  pub loads : Bool
  pub subscribes : Bool

-- The unix seconds of the clock.
abbrev pub seconds : Env → ℕ
seconds env = env.now / 1000000000

-- `NewSession`
unfoldable pub new_session : ℕ → ℕ → Session
new_session now timeout = record {
  handshake = new_server_handshake now timeout;
  auth_key = none;
  session_id = 0;
  salt = 0;
  msg_ids = record { last = 0; offset = 0 };
  seq_no = 0;
  validator = new_validator;
  user_id = 0;
  device_id = 0;
  pending_acks = [];
  channels = [];
  written = [];
  calls = [];
}

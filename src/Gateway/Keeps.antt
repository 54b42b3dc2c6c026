-- ===== src/Gateway/Keeps.antt =====
-- What writing to the connection leaves alone.
use messaging_app.Prelude.{
  Bool, Bool-cases, List, Option, Result, err, false, inl, inr, ltb, none, ok, refl, some, true, ℕ,
  ◌&&◌, ◌==◌, ◌∙◌, ◌≡◌,
}
use messaging_app.Gateway.{
  Body, Code, Env, Session, UpstreamError, encode_failed, flood_wait, internal, rpc_error,
  rpc_result, seconds, upstream_code,
}
use messaging_app.Gateway.Send.{
  kind_from_server_response, make_message, reply, rpc_error_to, rpc_result_to, send_encrypted,
  send_plain, send_service, write_frame, write_message,
}
use messaging_app.Mtproto.Envelope.{encode_plain, encrypt}
use messaging_app.Mtproto.Keys.{AuthKey, server_to_client}
use messaging_app.Mtproto.MsgId.{next_id}
use messaging_app.Mtproto.Tl.{c_rpc_error, c_rpc_result, encode}

-- The second session has the key, the identity and the calls of the first.
pub record Keeps (s t : Session) : Type 0 where
  pub same_key : t.auth_key ≡ s.auth_key
  pub same_user : t.user_id ≡ s.user_id
  pub same_calls : t.calls ≡ s.calls

pub Keeps-refl : (s : Session) → Keeps s s
Keeps-refl s = record { same_key = refl; same_user = refl; same_calls = refl }

pub Keeps-trans : (s t u : Session) → Keeps s t → Keeps t u → Keeps s u
Keeps-trans s t u h k = record {
  same_key = k.same_key ∙ h.same_key;
  same_user = k.same_user ∙ h.same_user;
  same_calls = k.same_calls ∙ h.same_calls;
}

-- Of the cases of a result.
pub Keeps-cases :
    {E A B : Type 0} (s : Session) (bad : E → Session × B) (good : A → Session × B) (x : Result E A)
    → ((e : E) → Keeps s ((bad e).0))
    → ((a : A) → Keeps s ((good a).0))
    → Keeps s ((elim x as (λ _. Session × B) [ err e ↦ bad e | ok a ↦ good a ]).0)
Keeps-cases s bad good (err e) hb hg = hb e
Keeps-cases s bad good (ok a) hb hg = hg a

-- And of an option.
pub Keeps-options :
    {A B : Type 0} (s : Session) (without : Session × B) (good : A → Session × B) (x : Option A)
    → Keeps s (without.0)
    → ((a : A) → Keeps s ((good a).0))
    → Keeps s ((elim x as (λ _. Session × B) [ none ↦ without | some a ↦ good a ]).0)
Keeps-options s without good none hb hg = hb
Keeps-options s without good (some a) hb hg = hg a

pub write_frame-Keeps :
    (env : Env) (frame : List ℕ) (s : Session) → Keeps s ((write_frame env frame s).0)
unfolding write_frame
write_frame-Keeps env frame s = elim (Bool-cases env.writable) [
  | inl writes ↦ rw (writes) (record { same_key = refl; same_user = refl; same_calls = refl })
  | inr broken ↦ rw (broken) (record { same_key = refl; same_user = refl; same_calls = refl })
]

pub send_plain-Keeps :
    (env : Env) (id : ℕ) (body : Body) (s : Session) → Keeps s ((send_plain env id body s).0)
unfolding send_plain
send_plain-Keeps env id body s =
    Keeps-cases s _ _ (encode id (env.marshal body)) (λ e. Keeps-refl s)
      (λ payload.
        let next = next_id kind_from_server_response (seconds env) s.msg_ids in
        let s1 = record s { msg_ids = next.1 } in
        let wrote = write_frame-Keeps env (encode_plain next.0 payload) s1 in
        record {
          same_key = wrote.same_key;
          same_user = wrote.same_user;
          same_calls = wrote.same_calls;
        })

pub write_message-Keeps :
    (env : Env) (k : AuthKey) (content : Bool) (payload : List ℕ) (s : Session)
    → Keeps s ((write_message env k (make_message env content payload s)).0)
unfolding write_message make_message
write_message-Keeps env k content payload s =
    let (msg, s1) = make_message env content payload s in
    Keeps-cases s _ _ (encrypt env.crypto env.random k msg server_to_client)
      (λ e. record { same_key = refl; same_user = refl; same_calls = refl })
      (λ frame.
        let wrote = write_frame-Keeps env frame s1 in
        record {
          same_key = wrote.same_key;
          same_user = wrote.same_user;
          same_calls = wrote.same_calls;
        })

pub send_encrypted-Keeps :
    (env : Env) (id : ℕ) (body : Body) (content : Bool) (s : Session)
    → Keeps s ((send_encrypted env id body content s).0)
unfolding send_encrypted
send_encrypted-Keeps env id body content s = Keeps-options s _ _ s.auth_key (Keeps-refl s) (λ k.
    Keeps-cases s _ _ (encode id (env.marshal body)) (λ e. Keeps-refl s)
      (λ payload. write_message-Keeps env k content payload s))

pub send_service-Keeps :
    (env : Env) (id : ℕ) (body : Body) (s : Session) → Keeps s (send_service env id body s)
unfolding send_service
send_service-Keeps env id body s = send_encrypted-Keeps env id body false s

pub rpc_error_to-Keeps :
    (env : Env) (req_id status : ℕ) (code : Code) (s : Session)
    → Keeps s (rpc_error_to env req_id status code s)
unfolding rpc_error_to
rpc_error_to-Keeps env req_id status code s =
    send_encrypted-Keeps env c_rpc_error (rpc_error req_id status code) true s

pub rpc_result_to-Keeps :
    (env : Env) (req_id : ℕ) (result : Option (List ℕ)) (s : Session)
    → Keeps s (rpc_result_to env req_id result s)
unfolding rpc_result_to
rpc_result_to-Keeps env req_id none s = rpc_error_to-Keeps env req_id 500 encode_failed s
rpc_result_to-Keeps env req_id (some result) s =
    send_encrypted-Keeps env c_rpc_result (rpc_result req_id result) true s

pub reply-Keeps :
    (env : Env) (req_id : ℕ) (r : Result (Option UpstreamError) (List ℕ)) (s : Session)
    → Keeps s (reply env req_id r s)
unfolding reply
reply-Keeps env req_id (ok result) s = rpc_result_to-Keeps env req_id (some result) s
reply-Keeps env req_id (err none) s = rpc_error_to-Keeps env req_id 503 internal s
reply-Keeps env req_id (err (some e)) s =
    elim (Bool-cases (e.status == 429 && ltb 0 e.retry_after)) [
      | inl waits ↦ rw waits (rpc_error_to-Keeps env req_id 420 (flood_wait e.retry_after) s)
      | inr other ↦ rw other (rpc_error_to-Keeps env req_id e.status (upstream_code e.code) s)
    ]

-- ===== src/Gateway/Keyed.antt =====
-- Sessions with a key: what the handling of a message keeps.
use messaging_app.Prelude.{
  List, Option, Result, arith, false, refl, some, subst, sym, ℕ, ◌==◌, ◌||◌, ◌∙◌, ◌∷◌, ◌≡◌, ◌≢◌,
}
use messaging_app.Gateway.{
  Body, Call, Code, Env, Failure, Session, State, auth_key_missing, auth_token_invalid,
  auth_unavailable, bad_request, method_not_found, ok_body, subscribe_error,
}
use messaging_app.Gateway.Cases.{if_both, option_both, result_both}
use messaging_app.Gateway.Dispatch.{
  attach_identity, bind_identity, call_of, confirm_bind, handle_api, handle_auth_bind,
  handle_destroy_session, handle_ping, is_method, is_subscribed, on_session,
}
use messaging_app.Gateway.Keeps.{
  Keeps, reply-Keeps, rpc_error_to-Keeps, rpc_result_to-Keeps, send_service-Keeps,
}
use messaging_app.Gateway.Send.{rpc_error_to, rpc_result_to, send_service}
use messaging_app.Mtproto.Envelope.{Message}
use messaging_app.Mtproto.Keys.{AuthKey, wipe}
use messaging_app.Mtproto.Tl.{c_ok, c_pong, c_set_typing, decode}
use messaging_app.Prelude.Bytes.{All}

abbrev pub HasUser : Call → Type 0
HasUser c = c.user_id ≢ 0

-- The session has a key, and every call was made for a user.
pub record IsKeyed (s : Session) : Type 0 where
  pub key : AuthKey
  pub has_key : s.auth_key ≡ some key
  pub bound : All HasUser s.calls

pub IsKeyed-Keeps : (s t : Session) → Keeps s t → IsKeyed s → IsKeyed t
IsKeyed-Keeps s t same h = record {
  key = h.key;
  has_key = same.same_key ∙ h.has_key;
  bound = subst (λ l. All HasUser l) (sym same.same_calls) h.bound;
}

abbrev pub IsKeyedState : State → Type 0
IsKeyedState st = IsKeyed (st.session)

module _ (env : Env) where
  pub IsKeyed-rpc_error_to :
      (req_id status : ℕ) (code : Code) (s : Session)
      → IsKeyed s
      → IsKeyed (rpc_error_to env req_id status code s)
  IsKeyed-rpc_error_to req_id status code s h =
      IsKeyed-Keeps s _ (rpc_error_to-Keeps env req_id status code s) h

  IsKeyed-rpc_result_to :
      (req_id : ℕ) (result : Option (List ℕ)) (s : Session)
      → IsKeyed s
      → IsKeyed (rpc_result_to env req_id result s)
  IsKeyed-rpc_result_to req_id result s h =
      IsKeyed-Keeps s _ (rpc_result_to-Keeps env req_id result s) h

  pub IsKeyed-send_service :
      (id : ℕ) (body : Body) (s : Session) → IsKeyed s → IsKeyed (send_service env id body s)
  IsKeyed-send_service id body s h = IsKeyed-Keeps s _ (send_service-Keeps env id body s) h

  pub IsKeyed-handle_ping :
      (msg : Message) (s : Session) → IsKeyed s → IsKeyed (handle_ping env msg s)
  unfolding handle_ping
  IsKeyed-handle_ping msg s h = IsKeyed-send_service c_pong _ s h

  pub IsKeyed-attach_identity :
      (user : ℕ) (s : Session) → IsKeyed s → IsKeyed ((attach_identity env user s).0)
  unfolding attach_identity
  IsKeyed-attach_identity user s h =
      if_both (λ (p : Session × Result Failure Unit). IsKeyed (p.0)) (is_subscribed user s.channels)
        _ _ (λ e. h)
        (λ e.
          if_both (λ (p : Session × Result Failure Unit). IsKeyed (p.0)) env.subscribes _ _
            (λ f. record { key = h.key; has_key = h.has_key; bound = h.bound }) (λ f. h))

  pub IsKeyed-handle_destroy_session :
      (st : State) → IsKeyedState st → IsKeyedState (handle_destroy_session env st)
  unfolding handle_destroy_session on_session
  IsKeyed-handle_destroy_session st h =
      option_both IsKeyedState (st.session.auth_key) _ _
        (λ e. IsKeyed-send_service c_ok ok_body (st.session) h)
        (λ k e.
          IsKeyed-send_service c_ok ok_body (record (st.session) { auth_key = some (wipe k) })
            (record { key = wipe k; has_key = refl; bound = h.bound }))

  IsKeyed-confirm_bind :
      (msg : Message) (s : Session) → IsKeyed s → IsKeyed (confirm_bind env msg s)
  unfolding confirm_bind
  IsKeyed-confirm_bind msg s h =
      IsKeyed-rpc_result_to msg.msg_id _ _
        (record { key = h.key; has_key = h.has_key; bound = h.bound })

  IsKeyed-bind_identity :
      (msg : Message) (k : AuthKey) (user device : ℕ) (st : State)
      → IsKeyedState st
      → IsKeyedState (bind_identity env msg k user device st)
  unfolding bind_identity
  IsKeyed-bind_identity msg k user device st h =
      let s1 = record (st.session) { user_id = user; device_id = device } in
      let h1 : IsKeyed s1 = record { key = h.key; has_key = h.has_key; bound = h.bound } in
      let attached = IsKeyed-attach_identity user s1 h1 in
      result_both IsKeyed ((attach_identity env user s1).1) _ _
        (λ e. IsKeyed-rpc_error_to msg.msg_id 503 subscribe_error _ attached)
        (λ u. IsKeyed-confirm_bind msg _ attached)

  pub IsKeyed-handle_auth_bind :
      (msg : Message) (st : State) → IsKeyedState st → IsKeyedState (handle_auth_bind env msg st)
  unfolding handle_auth_bind on_session
  IsKeyed-handle_auth_bind msg st h =
      let s = st.session in
      result_both IsKeyedState (decode env.unmarshal_bind msg.body) _ _
        (λ e. IsKeyed-rpc_error_to msg.msg_id 400 bad_request s h)
        (λ token.
          option_both IsKeyedState s.auth_key _ _
            (λ e. IsKeyed-rpc_error_to msg.msg_id 401 auth_key_missing s h)
            (λ k e.
              result_both IsKeyedState (env.resolve_token token) _ _
                (λ status.
                  if_both IsKeyedState (status == 401) _ _
                    (λ f. IsKeyed-rpc_error_to msg.msg_id 401 auth_token_invalid s h)
                    (λ f. IsKeyed-rpc_error_to msg.msg_id 503 auth_unavailable s h))
                (λ (user, device). IsKeyed-bind_identity msg k user device st h)))

  -- A call is made only for a session with a user.
  pub IsKeyed-handle_api :
      (msg : Message) (c : ℕ) (s : Session)
      → (s.user_id == 0) ≡ false
      → IsKeyed s
      → IsKeyed (handle_api env msg c s)
  unfolding handle_api call_of
  IsKeyed-handle_api msg c s user h =
      let someone : s.user_id ≢ 0 = ground (arith, user) in
      if_both IsKeyed (is_method c || c == c_set_typing) _ _
        (λ e.
          result_both IsKeyed (decode (env.unmarshal_request c) msg.body) _ _
            (λ f. IsKeyed-rpc_error_to msg.msg_id 400 bad_request s h)
            (λ request.
              let call = call_of c request s in
              let s1 = record s { calls = call ∷ s.calls } in
              let h1 : IsKeyed s1 = record {
                key = h.key;
                has_key = h.has_key;
                bound = (someone, h.bound);
              } in
              if_both IsKeyed (c == c_set_typing) _ _
                (λ f. IsKeyed-rpc_result_to msg.msg_id (env.marshal ok_body) s1 h1)
                (λ f. IsKeyed-Keeps s1 _ (reply-Keeps env msg.msg_id (env.upstream call) s1) h1)))
        (λ e. IsKeyed-rpc_error_to msg.msg_id 400 method_not_found s h)

-- ===== src/Gateway/Handled.antt =====
-- The handling of a decrypted message keeps the key of a session, and the users of its calls.
use messaging_app.Prelude.{
  Bool, List, Result, [], if◌then◌else◌, length, ltb, not, ℕ, ◌&&◌, ◌==◌, ◌∷◌,
}
use messaging_app.Gateway.{
  Contained, Env, Failure, Session, State, auth_key_unbound, container_too_large,
}
use messaging_app.Gateway.Cases.{if_both, result_both}
use messaging_app.Gateway.Dispatch.{
  dispatch, dispatch_all, dispatch_contained, handle_container, max_contained, on_session, route,
}
use messaging_app.Gateway.Frames.{accept, check_envelope, note_session, receive}
use messaging_app.Gateway.Keyed.{
  IsKeyed, IsKeyed-handle_api, IsKeyed-handle_auth_bind, IsKeyed-handle_destroy_session,
  IsKeyed-handle_ping, IsKeyed-rpc_error_to, IsKeyed-send_service, IsKeyedState,
}
use messaging_app.Gateway.Send.{queue_ack}
use messaging_app.Mtproto.Envelope.{Message, decrypt, is_content_related}
use messaging_app.Mtproto.Keys.{AuthKey, client_to_server}
use messaging_app.Mtproto.MsgId.{check}
use messaging_app.Mtproto.Tl.{
  c_auth_bind, c_bad_msg_notify, c_bad_server_salt, c_destroy_session, c_msg_container, c_msgs_ack,
  c_new_session_reset, c_ping, decode, peek_constructor,
}

module _ (env : Env) where
  IsKeyed-route :
      (c : ℕ) (msg : Message) (st : State) → IsKeyedState st → IsKeyedState (route env c msg st)
  unfolding route on_session
  IsKeyed-route c msg st h =
      let s = st.session in
      if_both IsKeyedState (c == c_ping) _ _ (λ e. IsKeyed-handle_ping env msg s h)
        (λ e.
          if_both IsKeyedState (c == c_msgs_ack) _ _ (λ e. h)
            (λ e.
              if_both IsKeyedState (c == c_destroy_session) _ _
                (λ e. IsKeyed-handle_destroy_session env st h)
                (λ e.
                  if_both IsKeyedState (c == c_auth_bind) _ _
                    (λ e. IsKeyed-handle_auth_bind env msg st h)
                    (λ e.
                      if_both IsKeyedState (s.user_id == 0) _ _
                        (λ f. IsKeyed-rpc_error_to env msg.msg_id 401 auth_key_unbound s h)
                        (λ f. IsKeyed-handle_api env msg c s f h)))))

  IsKeyed-queue_ack : (id : ℕ) (s : Session) → IsKeyed s → IsKeyed (queue_ack id s)
  unfolding queue_ack
  IsKeyed-queue_ack id s h = record { key = h.key; has_key = h.has_key; bound = h.bound }

  IsKeyed-dispatch_contained :
      (msg : Message) (inner : Contained) (st : State)
      → IsKeyedState st
      → IsKeyedState (dispatch_contained env msg inner st)
  unfolding dispatch_contained on_session
  IsKeyed-dispatch_contained msg inner st h =
      let sub = record msg { msg_id = inner.msg_id; seq_no = inner.seq_no; body = inner.payload } in
      let acked = on_session (queue_ack inner.msg_id) st in
      let st1 = if is_content_related sub then acked else st in
      let h1 : IsKeyedState st1 =
        if_both IsKeyedState (is_content_related sub) acked st
          (λ f. IsKeyed-queue_ack inner.msg_id (st.session) h) (λ f. h) in
      result_both IsKeyedState (peek_constructor inner.payload) _ _ (λ e. h)
        (λ c.
          if_both IsKeyedState (c == c_msg_container) _ _ (λ e. h)
            (λ e. IsKeyed-route c sub st1 h1))

  IsKeyed-dispatch_all :
      (msg : Message) (inner : List Contained) (st : State)
      → IsKeyedState st
      → IsKeyedState (dispatch_all env msg inner st)
  unfolding dispatch_all
  IsKeyed-dispatch_all msg [] st h = h
  IsKeyed-dispatch_all msg (m ∷ rest) st h =
      IsKeyed-dispatch_all msg rest _ (IsKeyed-dispatch_contained msg m st h)

  IsKeyed-dispatch :
      (msg : Message) (st : State) → IsKeyedState st → IsKeyedState (dispatch env msg st)
  unfolding dispatch handle_container on_session
  IsKeyed-dispatch msg st h =
      result_both IsKeyedState (peek_constructor msg.body) _ _ (λ e. h)
        (λ c.
          if_both IsKeyedState (c == c_msg_container) _ _
            (λ e.
              result_both IsKeyedState (decode env.unmarshal_container msg.body) _ _ (λ e. h)
                (λ inner.
                  if_both IsKeyedState (ltb max_contained (length inner)) _ _
                    (λ f.
                      IsKeyed-rpc_error_to env msg.msg_id 400 container_too_large (st.session) h)
                    (λ f. IsKeyed-dispatch_all msg inner st h)))
            (λ e. IsKeyed-route c msg st h))

  IsKeyed-check_envelope :
      (msg : Message) (s : Session) → IsKeyed s → IsKeyed ((check_envelope env msg s).0)
  unfolding check_envelope
  IsKeyed-check_envelope msg s h =
      let P : Session × Bool → Type 0 = λ p. IsKeyed (p.0) in
      result_both P (check env.order env.now msg.msg_id s.validator) _ _
        (λ e. IsKeyed-send_service env c_bad_msg_notify _ s h)
        (λ v.
          let s1 = record s { validator = v } in
          let h1 : IsKeyed s1 = record { key = h.key; has_key = h.has_key; bound = h.bound } in
          if_both P (not (s.salt == 0) && not (msg.salt == s.salt)) _ _
            (λ f. IsKeyed-send_service env c_bad_server_salt _ s1 h1) (λ f. h1))

  IsKeyed-note_session :
      (msg : Message) (s : Session) → IsKeyed s → IsKeyed (note_session env msg s)
  unfolding note_session
  IsKeyed-note_session msg s h =
      if_both IsKeyed (s.session_id == 0) _ _
        (λ e. record { key = h.key; has_key = h.has_key; bound = h.bound })
        (λ e.
          if_both IsKeyed (not (msg.session_id == s.session_id)) _ _
            (λ f.
              IsKeyed-send_service env c_new_session_reset _
                (record s { session_id = msg.session_id; seq_no = 0 })
                (record { key = h.key; has_key = h.has_key; bound = h.bound }))
            (λ f. h))

  IsKeyed-accept : (msg : Message) (st : State) → IsKeyedState st → IsKeyedState (accept env msg st)
  unfolding accept
  IsKeyed-accept msg st h =
      let s = (check_envelope env msg (st.session)).0 in
      let checked = IsKeyed-check_envelope msg (st.session) h in
      let noted = IsKeyed-note_session msg s checked in
      if_both IsKeyedState ((check_envelope env msg (st.session)).1) _ _
        (λ e. IsKeyed-dispatch msg _ (
          if_both IsKeyed (is_content_related msg) _ _ (λ f. IsKeyed-queue_ack msg.msg_id _ noted)
            (λ f. noted)))
        (λ e. checked)

  pub IsKeyed-receive :
      (k : AuthKey) (frame : List ℕ) (st : State)
      → IsKeyedState st
      → IsKeyedState ((receive env k frame st).0)
  unfolding receive
  IsKeyed-receive k frame st h =
      result_both (λ (p : State × Result Failure Unit). IsKeyedState (p.0))
        (decrypt env.crypto k frame client_to_server) _ _ (λ e. h) (λ msg. IsKeyed-accept msg st h)

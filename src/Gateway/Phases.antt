-- ===== src/Gateway/Phases.antt =====
-- The phases of a session: no identity and no calls without a key.
use messaging_app.Prelude.{
  List, Option, Result, [], none, refl, some, subst, sym, ℕ, ◌==◌, ◌∙◌, ◌≡◌,
}
use messaging_app.Gateway.{
  Body, Env, Failure, Session, State, dh_gen_failed, dh_params_invalid, handshake_error,
  new_session, res_pq, server_dh_params,
}
use messaging_app.Gateway.Cases.{if_both, option_both, result_both}
use messaging_app.Gateway.Frames.{handle_frame, restore_binding, resume, route_frame}
use messaging_app.Gateway.Handled.{IsKeyed-receive}
use messaging_app.Gateway.Keeps.{send_plain-Keeps}
use messaging_app.Gateway.Keyed.{HasUser, IsKeyed, IsKeyed-attach_identity, IsKeyedState}
use messaging_app.Gateway.Plain.{
  adopt_key, answer_plain, handle_plain, open_plain, plain_req_dh, plain_req_pq, plain_set_dh,
  reject, route_plain,
}
use messaging_app.Gateway.Send.{send_plain}
use messaging_app.Gateway.Store.{load, load_binding, save}
use messaging_app.Mtproto.Envelope.{peek_auth_key_id}
use messaging_app.Mtproto.Handshake.{DhGenOk}
use messaging_app.Mtproto.Handshake.Server.{
  ServerHandshake, req_dh_params, req_pq, set_client_dh_params,
}
use messaging_app.Mtproto.Keys.{AuthKey}
use messaging_app.Mtproto.Tl.{
  c_dh_gen_ok, c_handshake_error, c_req_dh_params, c_req_pq, c_res_pq, c_server_dh_params,
  c_set_client_dh_params, decode,
}
use messaging_app.Prelude.Bytes.{All}

-- A session without a key has no identity and has made no calls; every call was made for a user.
pub record IsPhased (s : Session) : Type 0 where
  pub unkeyed : s.auth_key ≡ none → (s.user_id ≡ 0) × (s.calls ≡ [])
  pub bound : All HasUser s.calls

IsPhased-IsKeyed : (s : Session) → IsKeyed s → IsPhased s
IsPhased-IsKeyed s h = record { unkeyed = λ without. let has = h.has_key in cc; bound = h.bound }

-- The handshake touches neither the identity nor the calls.
record SameWork (s t : Session) : Type 0 where
  same_user : t.user_id ≡ s.user_id
  same_calls : t.calls ≡ s.calls

SameWork-refl : (s : Session) → SameWork s s
SameWork-refl s = record { same_user = refl; same_calls = refl }

SameWork-step : (s : Session) (h : ServerHandshake) → SameWork s (record s { handshake = h })
SameWork-step s h = record { same_user = refl; same_calls = refl }

IsPhased-SameWork : (s t : Session) → SameWork s t → s.auth_key ≡ none → IsPhased s → IsPhased t
IsPhased-SameWork s t same without h = record {
  unkeyed = λ e. (same.same_user ∙ (h.unkeyed without).0, same.same_calls ∙ (h.unkeyed without).1);
  bound = subst (λ l. All HasUser l) (sym same.same_calls) h.bound;
}

module _ (env : Env) where
  SameWork-send_plain :
      (id : ℕ) (body : Body) (s t : Session)
      → SameWork s t
      → SameWork s ((send_plain env id body t).0)
  SameWork-send_plain id body s t h =
      let sent = send_plain-Keeps env id body t in
      record {
        same_user = sent.same_user ∙ h.same_user;
        same_calls = sent.same_calls ∙ h.same_calls;
      }

  abbrev After : Session → State × Result Failure Unit → Type 0
  After s p = SameWork s (p.0.session)

  SameWork-adopt_key :
      (key : AuthKey) (confirmation : DhGenOk) (s : Session) (st : State)
      → SameWork s (st.session)
      → After s (adopt_key env key confirmation st)
  unfolding adopt_key reject answer_plain
  SameWork-adopt_key key confirmation s st h =
      result_both (After s) (save env key st.shared) _ _
        (λ e. SameWork-send_plain c_handshake_error _ s (st.session) h)
        (λ shared.
          option_both (After s) env.new_salt _ _
            (λ e. record { same_user = h.same_user; same_calls = h.same_calls })
            (λ salt e.
              SameWork-send_plain c_dh_gen_ok _ s _
                (record { same_user = h.same_user; same_calls = h.same_calls })))

  SameWork-plain_req_pq :
      (payload : List ℕ) (st : State) → After (st.session) (plain_req_pq env payload st)
  unfolding plain_req_pq answer_plain
  SameWork-plain_req_pq payload st =
      let s = st.session in
      result_both (After s) (decode env.unmarshal_req_pq payload) _ _ (λ e. SameWork-refl s)
        (λ nonce.
          let step = req_pq env.server_key env.now env.server_nonce env.primes nonce s.handshake in
          result_both (After s) (step.1) _ _ (λ e. SameWork-step s step.0)
            (λ res.
              SameWork-send_plain c_res_pq (res_pq res) s (record s { handshake = step.0 })
                (SameWork-step s step.0)))

  SameWork-plain_req_dh :
      (payload : List ℕ) (st : State) → After (st.session) (plain_req_dh env payload st)
  unfolding plain_req_dh reject answer_plain
  SameWork-plain_req_dh payload st =
      let s = st.session in
      result_both (After s) (decode env.unmarshal_req_dh payload) _ _ (λ e. SameWork-refl s)
        (λ req.
          let step =
            req_dh_params env.crypto env.json env.server_key env.now env.exponent env.random req
              s.handshake in
          let s1 = record s { handshake = step.0 } in
          let h1 = SameWork-step s step.0 in
          result_both (After s) (step.1) _ _
            (λ e. SameWork-send_plain c_handshake_error (handshake_error dh_params_invalid) s s1 h1)
            (λ res. SameWork-send_plain c_server_dh_params (server_dh_params res) s s1 h1))

  SameWork-plain_set_dh :
      (payload : List ℕ) (st : State) → After (st.session) (plain_set_dh env payload st)
  unfolding plain_set_dh reject
  SameWork-plain_set_dh payload st =
      let s = st.session in
      result_both (After s) (decode env.unmarshal_set_dh payload) _ _ (λ e. SameWork-refl s)
        (λ req.
          let step = set_client_dh_params env.crypto env.json env.now req s.handshake in
          let s1 = record s { handshake = step.0 } in
          let h1 = SameWork-step s step.0 in
          result_both (After s) (step.1) _ _
            (λ e. SameWork-send_plain c_handshake_error (handshake_error dh_gen_failed) s s1 h1)
            (λ (key, confirmation).
              SameWork-adopt_key key confirmation s (record st { session = s1 }) h1))

  SameWork-handle_plain :
      (frame : List ℕ) (st : State) → After (st.session) (handle_plain env frame st)
  unfolding handle_plain route_plain
  SameWork-handle_plain frame st =
      let s = st.session in
      result_both (After s) (open_plain env frame) _ _ (λ e. SameWork-refl s)
        (λ (c, payload).
          if_both (After s) (c == c_req_pq) _ _ (λ e. SameWork-plain_req_pq payload st)
            (λ e.
              if_both (After s) (c == c_req_dh_params) _ _ (λ e. SameWork-plain_req_dh payload st)
                (λ e.
                  if_both (After s) (c == c_set_client_dh_params) _ _
                    (λ e. SameWork-plain_set_dh payload st) (λ e. SameWork-refl s))))

  IsKeyed-restore_binding :
      (id : ℕ) (st : State) → IsKeyedState st → IsKeyedState (restore_binding env id st)
  unfolding restore_binding
  IsKeyed-restore_binding id st h =
      result_both IsKeyedState (load_binding env id st.shared) _ _ (λ e. h)
        (λ (user, device).
          IsKeyed-attach_identity env user
            (record (st.session) { user_id = user; device_id = device })
            (record { key = h.key; has_key = h.has_key; bound = h.bound }))

  abbrev Phased : State × Result Failure Unit → Type 0
  Phased p = IsPhased (p.0.session)

  IsPhased-resume :
      (id : ℕ) (frame : List ℕ) (st : State)
      → IsPhased (st.session)
      → Phased (resume env id frame st)
  unfolding resume
  IsPhased-resume id frame st h =
      result_both Phased (load env id st.shared) _ _ (λ e. h)
        (λ k. IsPhased-IsKeyed _ (
          IsKeyed-receive env k frame _ (
            IsKeyed-restore_binding id
              (record st { session = record (st.session) { auth_key = some k } })
              (record { key = k; has_key = refl; bound = h.bound }))))

  IsPhased-route_frame :
      (id : ℕ) (frame : List ℕ) (o : Option AuthKey) (st : State)
      → st.session.auth_key ≡ o
      → IsPhased (st.session)
      → Phased (route_frame env id frame o st)
  unfolding route_frame
  IsPhased-route_frame id frame none st e h =
      if_both Phased (id == 0) _ _
        (λ f. IsPhased-SameWork (st.session) _ (SameWork-handle_plain frame st) e h)
        (λ f. IsPhased-resume id frame st h)
  IsPhased-route_frame id frame (some k) st e h =
      if_both Phased (id == 0) _ _ (λ f. h)
        (λ f.
          IsPhased-IsKeyed _
            (IsKeyed-receive env k frame st (record { key = k; has_key = e; bound = h.bound })))

  pub IsPhased-handle_frame :
      (frame : List ℕ) (st : State) → IsPhased (st.session) → Phased (handle_frame env frame st)
  unfolding handle_frame
  IsPhased-handle_frame frame st h =
      result_both Phased (peek_auth_key_id frame) _ _ (λ e. h)
        (λ id. IsPhased-route_frame id frame (st.session.auth_key) st refl h)

pub new_session-IsPhased : (now timeout : ℕ) → IsPhased (new_session now timeout)
unfolding new_session
new_session-IsPhased now timeout = record { unkeyed = λ e. (refl, refl); bound = tt }

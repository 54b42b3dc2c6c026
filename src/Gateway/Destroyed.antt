-- ===== src/Gateway/Destroyed.antt =====
-- What is left of a session whose client has destroyed it.
use messaging_app.Prelude.{
  Bool-cases, List, Option, Result, [], ap, arith, err, false, inl, inr, length, ltb, none, ok,
  refl, replicate, some, take, true, ℕ, ◌+◌, ◌==◌, ◌∙◌, ◌∷◌, ◌≡◌,
}
use messaging_app.Gateway.{
  Env, Failure, Session, State, ok_body, plain_on_encrypted, transport, update,
}
use messaging_app.Gateway.Dispatch.{handle_destroy_session}
use messaging_app.Gateway.Frames.{handle_frame, receive, route_frame, run}
use messaging_app.Gateway.Keeps.{send_service-Keeps}
use messaging_app.Gateway.Send.{
  make_message, send_encrypted, send_update, write_frame, write_message,
}
use messaging_app.Mtproto.{Crypto, Error, IsBlock, IsCrypto, short_frame, unknown_auth_key}
use messaging_app.Mtproto.Envelope.{
  decrypt, encrypt, header_size, min_padding, pad_length, peek_auth_key_id,
}
use messaging_app.Mtproto.Envelope.RoundTrip.{IsMessage}
use messaging_app.Mtproto.Envelope.Sealed.{decrypt-encrypt}
use messaging_app.Mtproto.Keys.{AuthKey, Direction, client_to_server, server_to_client, wipe}
use messaging_app.Mtproto.Tl.{c_ok, c_update, encode}
use messaging_app.Prelude.Bytes.{get_le}

-- The session has the key that `Zero` leaves.
abbrev pub IsDestroyed : State → Type 0
IsDestroyed st = (k : AuthKey) × (st.session.auth_key ≡ some (wipe k))

-- No frame of another id is decrypted under a wiped key.
decrypt_wiped :
    (crypto : Crypto) (k : AuthKey) (frame : List ℕ) (d : Direction)
    → (get_le (take 8 frame) == 0) ≡ false
    → (e : Error) × (decrypt crypto (wipe k) frame d ≡ err e)
unfolding decrypt wipe
decrypt_wiped crypto k frame d other =
    elim (Bool-cases (ltb (length frame) (8 + 16 + header_size + min_padding))) [
      | inl short ↦ (short_frame, rw (short) refl)
      | inr long ↦ (unknown_auth_key, rw (long, other) refl)
    ]

route_frame_wiped :
    (env : Env) (id : ℕ) (frame : List ℕ) (k : AuthKey) (st : State)
    → id ≡ get_le (take 8 frame)
    → (e : Failure) × (route_frame env id frame (some (wipe k)) st ≡ (st, err e))
unfolding route_frame receive
route_frame_wiped env id frame k st same = elim (Bool-cases (id == 0)) [
  | inl plain ↦ (plain_on_encrypted, rw (plain) refl)
  | inr other ↦
      let (e, refused) = decrypt_wiped env.crypto k frame client_to_server (rw⁻¹ same other) in
      (transport e, rw (other, receive, refused) refl)
]

-- Every frame that comes to such a session ends the connection, and changes nothing.
pub handle_frame_destroyed :
    (env : Env) (frame : List ℕ) (st : State)
    → IsDestroyed st
    → (e : Failure) × (handle_frame env frame st ≡ (st, err e))
unfolding handle_frame peek_auth_key_id
handle_frame_destroyed env frame st (k, wiped) = elim (Bool-cases (ltb (length frame) 8)) [
  | inl short ↦ (transport short_frame, rw (handle_frame, short) refl)
  | inr long ↦
      let id = get_le (take 8 frame) in
      let (e, refused) = route_frame_wiped env id frame k st refl in
      let opened : handle_frame env frame st ≡ route_frame env id frame (st.session.auth_key) st =
        rw (handle_frame, long) refl in
      (e, opened ∙ ap (λ o. route_frame env id frame o st) wiped ∙ refused)
]

-- The branch for a session with a key.
pub case_some :
    {A B : Type 0} (without : B) (good : A → B) (o : Option A) (a : A)
    → o ≡ some a
    → elim o as (λ _. B) [ none ↦ without | some x ↦ good x ] ≡ good a
case_some {B = B} without good o a e =
    ap (λ o. elim o as (λ _. B) [ none ↦ without | some x ↦ good x ]) e

-- `handleDestroySession` itself, on a session with a key.
pub auth_key-handle_destroy_session :
    (env : Env) (st : State) (k : AuthKey)
    → st.session.auth_key ≡ some k
    → (handle_destroy_session env st).session.auth_key ≡ some (wipe k)
unfolding handle_destroy_session
auth_key-handle_destroy_session env st k keyed =
    ap (λ (x : State). x.session.auth_key) (case_some _ _ (st.session.auth_key) k keyed)
    ∙ (send_service-Keeps env c_ok ok_body
        (record (st.session) { auth_key = some (wipe k) })).same_key

-- Once a session with a key has handled destroy_session, no frames that come change anything, and the first
-- of them ends the connection.
pub run_destroyed :
    (env : Env) (st : State) (k : AuthKey) (frames : List (Env × List ℕ))
    → st.session.auth_key ≡ some k
    → run frames (handle_destroy_session env st) ≡ handle_destroy_session env st
unfolding run
run_destroyed env st k [] keyed = refl
run_destroyed env st k ((env1, frame) ∷ rest) keyed =
    let (e, ended) =
      handle_frame_destroyed env1 frame (handle_destroy_session env st)
        (k, auth_key-handle_destroy_session env st k keyed) in
    rw (run, ended) (ap (λ p. p.0) ended)

-- The key that everyone knows.
abbrev pub zero_key : AuthKey
zero_key = record { raw = replicate 256 0; id = 0 }

send_update_keyed :
    (env : Env) (u payload frame : List ℕ) (k : AuthKey) (s : Session)
    → s.auth_key ≡ some k
    → encode c_update (env.marshal (update u)) ≡ ok payload
    → send_update env u s ≡ write_message env k (make_message env true payload s)
unfolding send_update send_encrypted
send_update_keyed env u payload frame k s keyed encoded =
    case_some (s, ok tt) (λ k. send_encrypted env c_update (update u) true s) s.auth_key k keyed
    ∙ case_some _ _ s.auth_key k keyed
    ∙ rw (encoded) refl

write_message_written :
    (env : Env) (payload frame : List ℕ) (k : AuthKey) (s : Session)
    → env.writable ≡ true
    → encrypt env.crypto env.random k ((make_message env true payload s).0) server_to_client
      ≡ ok frame
    → (write_message env k (make_message env true payload s)).0.written ≡ frame ∷ s.written
unfolding write_message write_frame make_message
write_message_written env payload frame k s writes encrypted =
    rw (write_message, encrypted, write_frame, writes) refl

wipe_zero : (k : AuthKey) → length k.raw ≡ 256 → wipe k ≡ zero_key
unfolding wipe
wipe_zero k size = ap (λ n. record { raw = replicate n 0; id = 0 }) size

-- After destroy_session, an update that is sent on the session is encrypted with the key of zeros: the frame
-- written is decrypted under it to the message with the update. The message is within its widths,
-- the random reader and the connection work, the key has 256 bytes, and the block cipher is
-- inverted by its decryption.
pub send_update_destroyed :
    (env : Env)
    → IsCrypto env.crypto
    → (u payload padding : List ℕ) (st : State) (k : AuthKey) → st.session.auth_key ≡ some k
    → length k.raw ≡ 256
    → env.writable ≡ true
    → encode c_update (env.marshal (update u)) ≡ ok payload
    → IsMessage ((make_message env true payload ((handle_destroy_session env st).session)).0)
    → env.random
        (pad_length ((make_message env true payload ((handle_destroy_session env st).session)).0))
      ≡ some padding
    → IsBlock
        (pad_length ((make_message env true payload ((handle_destroy_session env st).session)).0))
        padding
    → (frame : List ℕ) × ((send_update env u ((handle_destroy_session env st).session)).0.written
        ≡ frame ∷ (handle_destroy_session env st).session.written)
      × (decrypt env.crypto zero_key frame server_to_client
          ≡ ok ((make_message env true payload ((handle_destroy_session env st).session)).0))
send_update_destroyed env laws u payload padding st k keyed size writes encoded fits drawn block =
    let s = (handle_destroy_session env st).session in
    let zeroed : s.auth_key ≡ some zero_key =
      auth_key-handle_destroy_session env st k keyed ∙ ap some (wipe_zero k size) in
    let msg = (make_message env true payload s).0 in
    let (frame, encrypted, decrypted) =
      decrypt-encrypt env.crypto laws env.random padding zero_key msg server_to_client (omega arith)
        fits drawn block in
    (
      frame,
      ap (λ (x : Session × Result Failure Unit). x.0.written)
            (send_update_keyed env u payload frame zero_key s zeroed encoded)
          ∙ write_message_written env payload frame zero_key s writes encrypted,
      decrypted,
    )

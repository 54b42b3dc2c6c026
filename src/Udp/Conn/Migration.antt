-- ===== src/Udp/Conn/Migration.antt =====
-- When a connection's address moves, and where its datagrams go.
use messaging_app.Prelude.{
  Bool-cases, List, Option, Option-cases, Result-cases, arith, false, inl, inr, none, ok, some,
  true, ℕ, ◌*◌, ◌+◌, ◌∙◌, ◌≡◌, ◌⊎◌,
}
use messaging_app.Prelude.Bytes.{bytes_eq_sound}
use messaging_app.Udp.{Header, is_close, is_path_response}
use messaging_app.Udp.Conn.{
  Addr, Challenge, Conn, Effect, begin_migration, challenged_within, close, complete_migration,
  deliver, echo_valid, on_datagram, same_addr, second, serve_data, take_data, validate_path,
}
use messaging_app.Udp.Reassembly.{reassemble}

module _ (c : Conn) where
  remote-deliver : (frame : List ℕ) (c' : Conn) → deliver frame c ≡ ok c' → c'.remote ≡ c.remote
  unfolding deliver
  remote-deliver frame c' e = ground arith

  challenge-deliver :
      (frame : List ℕ) (c' : Conn) → deliver frame c ≡ ok c' → c'.challenge ≡ c.challenge
  unfolding deliver
  challenge-deliver frame c' e = ground arith

  remote-close : (close c).0.remote ≡ c.remote
  unfolding close
  remote-close = ground arith

remote-take_data :
    (now : ℕ) (h : Header) (payload : List ℕ) (c c' : Conn)
    → take_data now h payload c ≡ ok c'
    → c'.remote ≡ c.remote
unfolding take_data
remote-take_data now h payload c c' e = elim (Result-cases (reassemble now h payload c.partials)) [
  | inl (x, fails) ↦ ground (arith, remote-deliver c payload c')
  | inr (r, done) ↦ elim (Option-cases r.1) [
    | inl waits ↦ ground (arith, remote-deliver c payload c')
    | inr (frame, whole) ↦
        ground (
          arith,
          remote-deliver c payload c',
          remote-deliver (record c { partials = r.0 }) frame c',
        )
  ]
]

remote-begin_migration :
    (now : ℕ) (random : Option (List ℕ)) (to : Addr) (c : Conn)
    → (begin_migration now random to c).0.remote ≡ c.remote
unfolding begin_migration
remote-begin_migration now none to c = ground arith
remote-begin_migration now (some token) to c = ground arith

same_addr_sound : (a b : Addr) → same_addr a b ≡ true → a ≡ b
same_addr_sound a b h = ground arith

-- A valid echo comes from the challenged address with the token that went there, in time.
echo_valid_sound :
    (now : ℕ) (payload : List ℕ) (from : Addr) (ch : Challenge)
    → echo_valid now payload from ch ≡ true
    → (ch.addr ≡ some from)
      × (payload ≡ ch.token)
      × (challenged_within now (5 * second + 1) ch ≡ true)
unfolding echo_valid challenged_within
echo_valid_sound now payload from ch h = elim (Option-cases ch.addr) [
  | inl missing ↦ ground arith
  | inr (to, asked) ↦ elim (Option-cases ch.at) [
    | inl never ↦ ground arith
    | inr (at, sent) ↦
        let same : to ≡ from = same_addr_sound to from (ground arith) in
        (ground arith, bytes_eq_sound payload ch.token (ground arith), ground arith)
  ]
]

remote-validate_path :
    (now : ℕ) (random : Option (List ℕ)) (from : Addr) (c : Conn)
    → (validate_path now random from c).0.remote ≡ c.remote
unfolding validate_path
remote-validate_path now random from c = ground (arith, remote-begin_migration now random from c)

remote-serve_data :
    (now : ℕ) (h : Header) (payload : List ℕ) (c c' : Conn) (sent effects : List Effect)
    → serve_data now h payload (c, sent) ≡ ok (c', effects)
    → c'.remote ≡ c.remote
unfolding serve_data
remote-serve_data now h payload c c' sent effects e =
    elim (Result-cases (take_data now h payload c)) [
      | inl (x, fails) ↦ ground arith
      | inr (c1, took) ↦ ground (arith, remote-take_data now h payload c c1)
    ]

-- Only an echo moves a connection: if a datagram changes the address that the server sends to, it
-- is a path response, and not a close, that came from the new address, and the new address is the
-- one that was challenged, at most 5 seconds ago, with the token that the datagram carries.
pub remote-on_datagram :
    (now : ℕ) (random : Option (List ℕ)) (h : Header) (payload : List ℕ) (from : Addr) (c c' : Conn)
    (effects : List Effect)
    → on_datagram now random h payload from c ≡ ok (c', effects)
    → (c'.remote ≡ c.remote)
      ⊎ ((c'.remote ≡ from)
          × (is_path_response h ≡ true)
          × (is_close h ≡ false)
          × (c.challenge.addr ≡ some from)
          × (payload ≡ c.challenge.token)
          × (challenged_within now (5 * second + 1) c.challenge ≡ true))
unfolding on_datagram complete_migration
remote-on_datagram now random h payload from c c' effects e =
    let seen = record c { last_seen = now } in
    elim (Bool-cases (is_close h)) [
      | inl closes ↦ inl (ground (arith, remote-close seen))
      | inr goes_on ↦ elim (Bool-cases (is_path_response h)) [
        | inl response ↦ elim (Bool-cases (echo_valid now payload from c.challenge)) [
          | inl valid ↦ inr (ground (arith, echo_valid_sound now payload from c.challenge valid))
          | inr invalid ↦ inl (ground arith)
        ]
        | inr other ↦
            let path = validate_path now random from seen in
            let served : serve_data now h payload (path.0, path.1) ≡ ok (c', effects) =
              ground arith in
            inl (
              remote-serve_data now h payload path.0 c' path.1 effects served
              ∙ remote-validate_path now random from seen)
      ]
    ]

-- ===== src/Udp/Conn/Delivery.antt =====
-- When a datagram is served, and when it ends the process.
use messaging_app.Prelude.{
  Bool-cases, List, Option, Option-cases, Result-cases, [], arith, err, false, inl, inr, length,
  ltb, none, ok, some, subst, sym, true, ℕ, ◌++◌, ◌<◌, ◌==◌, ◌∙◌, ◌∷◌, ◌≡◌,
}
use messaging_app.Udp.{Header, is_close, is_data, is_path_response, send_on_closed_channel}
use messaging_app.Udp.Conn.{
  Addr, Conn, Effect, begin_migration, close, complete_migration, deliver, inbox_size, on_datagram,
  serve_data, take_data, validate_path,
}
use messaging_app.Udp.Conn.Bounds.{IsBounded, on_datagram-IsBounded}
use messaging_app.Udp.Reassembly.{reassemble}
use messaging_app.Udp.Reassembly.Indexed.{reassemble-reassembled}
use messaging_app.Udp.Reassembly.Slots.{IsTable, IsTable-slots}

module _ (c : Conn) where
  deliver_total : (f : List ℕ) → c.closed ≡ false → (c' : Conn) × (deliver f c ≡ ok c')
  unfolding deliver
  deliver_total f live = elim (Bool-cases (ltb (length c.inbox) inbox_size)) [
    | inl room ↦ (record c { inbox = c.inbox ++ f ∷ [] }, ground arith)
    | inr crowded ↦ (c, ground arith)
  ]

take_data_total :
    (now : ℕ) (h : Header) (f : List ℕ) (c : Conn)
    → c.closed ≡ false
    → IsTable c.partials
    → (c' : Conn) × (take_data now h f c ≡ ok c')
unfolding take_data
take_data_total now h f c live t = elim (Bool-cases (h.frag_count == 1)) [
  | inl single ↦ elim (Bool-cases (length f == 0)) [
    | inl empty ↦ (c, ground arith)
    | inr filled ↦ let (c', done) = deliver_total c f live in (c', ground arith)
  ]
  | inr several ↦
      let done = reassemble-reassembled now h f c.partials (IsTable-slots h.msg_seq c.partials t) in
      elim (Result-cases (reassemble now h f c.partials)) [
        | inl (x, fails) ↦ absurd (cc)
        | inr (r, found) ↦ elim (Option-cases r.1) [
          | inl waits ↦ (record c { partials = r.0 }, ground arith)
          | inr (m, whole) ↦
              let (c', sent) = deliver_total (record c { partials = r.0 }) m live in
              (c', ground arith)
        ]
      ]
]

closed-validate_path :
    (now : ℕ) (random : Option (List ℕ)) (from : Addr) (c : Conn)
    → (validate_path now random from c).0.closed ≡ c.closed
unfolding validate_path begin_migration
closed-validate_path now none from c = ground arith
closed-validate_path now (some token) from c = ground arith

partials-validate_path :
    (now : ℕ) (random : Option (List ℕ)) (from : Addr) (c : Conn)
    → (validate_path now random from c).0.partials ≡ c.partials
unfolding validate_path begin_migration
partials-validate_path now none from c = ground arith
partials-validate_path now (some token) from c = ground arith

on_datagram_served :
    (now : ℕ) (random : Option (List ℕ)) (h : Header) (f : List ℕ) (from : Addr) (c : Conn)
    → c.closed ≡ false
    → IsTable c.partials
    → (r : Conn × List Effect) × (on_datagram now random h f from c ≡ ok r)
unfolding on_datagram serve_data
on_datagram_served now random h f from c live t =
    let seen = record c { last_seen = now } in
    let path = validate_path now random from seen in
    elim (Bool-cases (is_close h)) [
      | inl closes ↦ (close seen, ground arith)
      | inr goes_on ↦ elim (Bool-cases (is_path_response h)) [
        | inl response ↦ ((complete_migration now f from seen, []), ground arith)
        | inr other ↦ elim (Bool-cases (is_data h)) [
          | inl there ↦
              let (c', done) =
                take_data_total now h f path.0 (closed-validate_path now random from seen ∙ live)
                  (subst IsTable (sym (partials-validate_path now random from seen)) t) in
              ((c', path.1), ground arith)
          | inr absent ↦ (path, ground arith)
        ]
      ]
    ]

-- A connection that is not closed and within its bounds serves every datagram with a fragment count
-- other than 0, whatever its fragment index and its total: there is no send on a closed channel and
-- no index out of range, and the connection stays within its bounds.
pub on_datagram_total :
    (now : ℕ) (random : Option (List ℕ)) (h : Header) (f : List ℕ) (from : Addr) (c : Conn)
    → 0 < h.frag_count
    → c.closed ≡ false
    → IsBounded c
    → (r : Conn × List Effect) × (on_datagram now random h f from c ≡ ok r) × IsBounded r.0
on_datagram_total now random h f from c pos live v =
    let (r, served) = on_datagram_served now random h f from c live v.table in
    (r, served, on_datagram-IsBounded now random h f from c r.0 r.1 pos v served)

-- For a connection that Close has closed, a datagram that carries data, is not fragmented and not
-- empty, and neither closes nor answers a challenge, ends the process.
pub on_datagram_after_close :
    (now : ℕ) (random : Option (List ℕ)) (h : Header) (f : List ℕ) (from : Addr) (c : Conn)
    → is_close h ≡ false
    → is_path_response h ≡ false
    → is_data h ≡ true
    → h.frag_count ≡ 1
    → 0 < length f
    → on_datagram now random h f from (close c).0 ≡ err send_on_closed_channel
unfolding on_datagram serve_data take_data
on_datagram_after_close now random h f from c no_close no_echo has_data single filled =
    let gone = record (close c).0 { last_seen = now } in
    let over : (close c).0.closed ≡ true = unfold close in ground arith in
    let path = validate_path now random from gone in
    let over' = closed-validate_path now random from gone in
    let panics : deliver f path.0 ≡ err send_on_closed_channel = unfold deliver in ground arith in
    ground arith

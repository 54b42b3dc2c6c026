-- ===== src/Udp/Conn/Bounds.antt =====
-- The memory that a connection holds.
use messaging_app.Prelude.{
  Bool-cases, List, Option, Option-cases, Result-cases, [], arith, inl, inr, length, length-append,
  ltb, ltb→lt, none, ok, some, subst, ℕ, ◌++◌, ◌<◌, ◌==◌, ◌∷◌, ◌≡◌, ◌≤◌,
}
use messaging_app.Udp.{Header, is_close, is_data, is_path_response}
use messaging_app.Udp.Conn.{
  Addr, Conn, Effect, begin_migration, close, complete_migration, deliver, inbox_size, on_datagram,
  serve_data, take_data, validate_path,
}
use messaging_app.Udp.Reassembly.Slots.{IsTable, reassemble-IsTable}

-- A connection's buffers are within their limits.
pub record IsBounded (c : Conn) : Type 0 where
  pub queue : length c.inbox ≤ inbox_size
  pub table : IsTable c.partials

deliver-IsBounded : (f : List ℕ) (c c' : Conn) → IsBounded c → deliver f c ≡ ok c' → IsBounded c'
unfolding deliver
deliver-IsBounded f c c' v e = elim (Bool-cases c.closed) [
  | inl over ↦ ground arith
  | inr live ↦ elim (Bool-cases (ltb (length c.inbox) inbox_size)) [
    | inl room ↦
        let same : record c { inbox = c.inbox ++ f ∷ [] } ≡ c' = ground arith in
        subst IsBounded same (record {
          queue = omega (arith, length-append c.inbox (f ∷ []), ltb→lt _ _ room);
          table = v.table;
        })
    | inr crowded ↦ let same : c ≡ c' = ground arith in subst IsBounded same v
  ]
]

take_data-IsBounded :
    (now : ℕ) (h : Header) (f : List ℕ) (c c' : Conn)
    → 0 < h.frag_count
    → IsBounded c
    → take_data now h f c ≡ ok c'
    → IsBounded c'
unfolding take_data
take_data-IsBounded now h f c c' pos v e = elim (Bool-cases (h.frag_count == 1)) [
  | inl single ↦ elim (Bool-cases (length f == 0)) [
    | inl empty ↦ let same : c ≡ c' = ground arith in subst IsBounded same v
    | inr filled ↦ deliver-IsBounded f c c' v (ground arith)
  ]
  | inr several ↦
      let (r, done, table) = reassemble-IsTable now h f c.partials pos v.table in
      let kept : IsBounded (record c { partials = r.0 }) = record {
        queue = v.queue;
        table = table;
      } in
      elim (Option-cases r.1) [
        | inl waits ↦
            let same : record c { partials = r.0 } ≡ c' = ground arith in subst IsBounded same kept
        | inr (m, whole) ↦ deliver-IsBounded m (record c { partials = r.0 }) c' kept (ground arith)
      ]
]

-- What path validation and closing do not touch.
validate_path-IsBounded :
    (now : ℕ) (random : Option (List ℕ)) (from : Addr) (c : Conn)
    → IsBounded c
    → IsBounded (validate_path now random from c).0
unfolding validate_path begin_migration
validate_path-IsBounded now none from c v = ground arith
validate_path-IsBounded now (some token) from c v = ground arith

serve_data-IsBounded :
    (now : ℕ) (h : Header) (f : List ℕ) (c c' : Conn) (sent effects : List Effect)
    → 0 < h.frag_count
    → IsBounded c
    → serve_data now h f (c, sent) ≡ ok (c', effects)
    → IsBounded c'
unfolding serve_data
serve_data-IsBounded now h f c c' sent effects pos v e = elim (Bool-cases (is_data h)) [
  | inl there ↦ elim (Result-cases (take_data now h f c)) [
    | inl (x, fails) ↦ ground arith
    | inr (c1, took) ↦
        let same : c1 ≡ c' = ground arith in
        subst IsBounded same (take_data-IsBounded now h f c c1 pos v took)
  ]
  | inr absent ↦ let same : c ≡ c' = ground arith in subst IsBounded same v
]

-- Whatever datagram comes, with a fragment count other than 0, a connection within its bounds
-- stays so: at most 256 frames in its queue and at most 64 partial messages, each within the limit
-- of a frame.
pub on_datagram-IsBounded :
    (now : ℕ) (random : Option (List ℕ)) (h : Header) (f : List ℕ) (from : Addr) (c c' : Conn)
    (effects : List Effect)
    → 0 < h.frag_count
    → IsBounded c
    → on_datagram now random h f from c ≡ ok (c', effects)
    → IsBounded c'
unfolding on_datagram close complete_migration
on_datagram-IsBounded now random h f from c c' effects pos v e =
    let seen = record c { last_seen = now } in
    let v' : IsBounded seen = record { queue = v.queue; table = v.table } in
    elim (Bool-cases (is_close h)) [
      | inl closes ↦ ground arith
      | inr goes_on ↦ elim (Bool-cases (is_path_response h)) [
        | inl response ↦ ground arith
        | inr other ↦
            let path = validate_path now random from seen in
            serve_data-IsBounded now h f path.0 c' path.1 effects pos
              (validate_path-IsBounded now random from seen v') (ground arith)
      ]
    ]

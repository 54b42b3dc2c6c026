-- ===== src/Udp/Listener/Open.antt =====
-- The demultiplexer on its own never meets a closed connection, and keeps to its capacity.
use messaging_app.Prelude.{
  Bool-cases, List, Option, Option-cases, Result-cases, [], arith, false, inl, inr, leb, length,
  none, ok, refl, some, ℕ, ◌<◌, ◌∷◌, ◌≡◌, ◌≤◌,
}
use messaging_app.Prelude.Assoc.{
  Entries, Entries-erase, Entries-erase-insert, Entries-insert, Entries-lookup, Values,
  Values-erase, Values-insert, Values-lookup, erase, insert, length-erase-le, length-insert, lookup,
  lookup-insert,
}
use messaging_app.Udp.{Header, flag_close, is_close, is_data, is_hello, is_path_response}
use messaging_app.Udp.Conn.{
  Addr, Conn, Effect, begin_migration, close, complete_migration, control, deliver, new_conn,
  on_datagram, remove, send, serve_data, take_data, validate_path,
}
use messaging_app.Udp.Conn.Bounds.{IsBounded}
use messaging_app.Udp.Conn.Delivery.{on_datagram_total}
use messaging_app.Udp.Datagram.{marshal, parse_udp}
use messaging_app.Udp.Listener.{Listener, apply_removals, dispatch, serve}
use messaging_app.Udp.Reassembly.{reassemble}

-- An entry under its own id, not closed.
abbrev pub IsOpen : ℕ → Conn → Type 0
IsOpen id c = (c.id ≡ id) × (c.closed ≡ false)

-- The table between two datagrams.
pub record IsOpenTable (l : Listener) : Type 0 where
  pub opens : Entries IsOpen l.conns
  pub bounded : Values IsBounded l.conns
  pub within : length l.conns ≤ l.max_connections

module _ (f : List ℕ) (c c' : Conn) where
  IsOpen-deliver : (k : ℕ) → IsOpen k c → deliver f c ≡ ok c' → IsOpen k c'
  unfolding deliver
  IsOpen-deliver k o e = ground arith

IsOpen-take_data :
    (now : ℕ) (h : Header) (f : List ℕ) (c c' : Conn) (k : ℕ)
    → IsOpen k c
    → take_data now h f c ≡ ok c'
    → IsOpen k c'
unfolding take_data
IsOpen-take_data now h f c c' k o e = elim (Result-cases (reassemble now h f c.partials)) [
  | inl (x, fails) ↦ ground (arith, IsOpen-deliver f c c' k o)
  | inr (r, done) ↦ elim (Option-cases r.1) [
    | inl waits ↦ ground (arith, IsOpen-deliver f c c' k o)
    | inr (m, whole) ↦
        ground
          (arith, IsOpen-deliver f c c' k o, IsOpen-deliver m (record c { partials = r.0 }) c' k o)
  ]
]

IsOpen-validate_path :
    (now : ℕ) (random : Option (List ℕ)) (from : Addr) (c : Conn) (k : ℕ)
    → IsOpen k c
    → IsOpen k (validate_path now random from c).0
unfolding validate_path begin_migration
IsOpen-validate_path now none from c k o = ground arith
IsOpen-validate_path now (some token) from c k o = ground arith

IsOpen-serve_data :
    (now : ℕ) (h : Header) (f : List ℕ) (c c' : Conn) (sent effects : List Effect) (k : ℕ)
    → IsOpen k c
    → serve_data now h f (c, sent) ≡ ok (c', effects)
    → IsOpen k c'
unfolding serve_data
IsOpen-serve_data now h f c c' sent effects k o e = elim (Bool-cases (is_data h)) [
  | inl there ↦ elim (Result-cases (take_data now h f c)) [
    | inl (x, fails) ↦ ground arith
    | inr (c1, took) ↦ ground (arith, IsOpen-take_data now h f c c1 k o took)
  ]
  | inr absent ↦ ground arith
]

Entries-removals :
    (effects : List Effect) (conns : List (ℕ × Conn))
    → Entries IsOpen conns
    → Entries IsOpen (apply_removals effects conns)
unfolding apply_removals
Entries-removals [] conns t = t
Entries-removals (send d a ∷ es) conns t = Entries-removals es conns t
Entries-removals (remove id ∷ es) conns t =
    Entries-removals es (erase id conns) (Entries-erase IsOpen id conns t)

-- Closing an open connection takes its entry off.
closes_entry :
    (c c' : Conn) (effects : List Effect) (conns : List (ℕ × Conn)) (k : ℕ)
    → IsOpen k c
    → Entries IsOpen conns
    → close c ≡ (c', effects)
    → Entries IsOpen (apply_removals effects (insert k c' conns))
unfolding close apply_removals
closes_entry c c' effects conns k o t e =
    let es : effects ≡ send (marshal (control flag_close c.id) []) c.remote ∷ remove k ∷ [] =
      ground arith in
    rw (es, apply_removals) (Entries-erase-insert IsOpen k c' conns t)

-- What a datagram does to an open connection's entry: it stays open, or it is taken off the table.
IsOpen-on_datagram :
    (now : ℕ) (random : Option (List ℕ)) (h : Header) (f : List ℕ) (from : Addr) (c c' : Conn)
    (effects : List Effect) (conns : List (ℕ × Conn)) (k : ℕ)
    → IsOpen k c
    → Entries IsOpen conns
    → on_datagram now random h f from c ≡ ok (c', effects)
    → Entries IsOpen (apply_removals effects (insert k c' conns))
unfolding on_datagram
IsOpen-on_datagram now random h f from c c' effects conns k o t e =
    let seen = record c { last_seen = now } in
    elim (Bool-cases (is_close h)) [
      | inl closes ↦ closes_entry seen c' effects conns k o t (ground arith)
      | inr goes_on ↦
          let o' : IsOpen k c' = elim (Bool-cases (is_path_response h)) [
            | inl response ↦ unfold complete_migration in ground arith
            | inr other ↦
                let path = validate_path now random from seen in
                IsOpen-serve_data now h f path.0 c' path.1 effects k
                  (IsOpen-validate_path now random from seen k o) (ground arith)
          ] in
          Entries-removals effects (insert k c' conns) (Entries-insert IsOpen k c' conns o' t)
    ]

Values-removals :
    (effects : List Effect) (conns : List (ℕ × Conn))
    → Values IsBounded conns
    → Values IsBounded (apply_removals effects conns)
unfolding apply_removals
Values-removals [] conns t = t
Values-removals (send d a ∷ es) conns t = Values-removals es conns t
Values-removals (remove id ∷ es) conns t =
    Values-removals es (erase id conns) (Values-erase IsBounded id conns t)

-- What the demultiplexer lets through has a fragment count other than 0.
parse_udp_counted : (dgram f : List ℕ) (h : Header) → parse_udp dgram ≡ ok (h, f) → 0 < h.frag_count
unfolding parse_udp
parse_udp_counted dgram f h e = ground arith

length-removals :
    (effects : List Effect) (conns : List (ℕ × Conn))
    → length (apply_removals effects conns) ≤ length conns
unfolding apply_removals
length-removals [] conns = omega arith
length-removals (send d a ∷ es) conns = length-removals es conns
length-removals (remove id ∷ es) conns =
    omega (arith, length-removals es (erase id conns), length-erase-le id conns)

-- A datagram for an entry of the table is served.
serve_open :
    (now : ℕ) (random : Option (List ℕ)) (h : Header) (f : List ℕ) (from : Addr) (c : Conn)
    (l : Listener)
    → 0 < h.frag_count
    → lookup h.conn_id l.conns ≡ some c
    → IsOpenTable l
    → (l' : Listener) × (effects : List Effect) × (serve now random h f from c l ≡ ok (l', effects))
      × IsOpenTable l'
unfolding serve
serve_open now random h f from c l pos there t =
    let o = Entries-lookup IsOpen h.conn_id c l.conns t.opens there in
    let v = Values-lookup IsBounded h.conn_id c l.conns t.bounded there in
    let (r, served, v') = on_datagram_total now random h f from c pos o.1 v in
    let table = apply_removals r.1 (insert h.conn_id r.0 l.conns) in
    (
      record l { conns = table },
      r.1,
      rw (served, serve) refl,
      record {
        opens = IsOpen-on_datagram now random h f from c r.0 r.1 l.conns h.conn_id o t.opens served;
        bounded =
            Values-removals r.1 (insert h.conn_id r.0 l.conns)
              (Values-insert IsBounded h.conn_id r.0 l.conns v' t.bounded);
        within = ground (
          arith,
          length-removals r.1 (insert h.conn_id r.0 l.conns),
          length-insert h.conn_id r.0 l.conns,
          t.within,
        );
      },
    )

-- An opening within the capacity.
opened :
    (id : ℕ) (from : Addr) (now : ℕ) (l : Listener)
    → leb l.max_connections (length l.conns) ≡ false
    → IsOpenTable l
    → IsOpenTable
        (record l { conns = insert id (new_conn id from now) l.conns; handlers = id ∷ l.handlers })
unfolding new_conn
opened id from now l room t = record {
  opens = Entries-insert IsOpen id (new_conn id from now) l.conns (refl, refl) t.opens;
  bounded =
      Values-insert IsBounded id (new_conn id from now) l.conns
        (record { queue = omega arith; table = record { few = omega arith; kept = tt } }) t.bounded;
  within = ground (arith, length-insert id (new_conn id from now) l.conns, t.within);
}

-- Whatever datagram comes to a table that has only open connections, each under its own id and within
-- its bounds, and no more than its capacity, the demultiplexer serves or drops it without a send on
-- a closed channel or an index out of range, and the table stays so.
pub dispatch-IsOpenTable :
    (now : ℕ) (random : Option (List ℕ)) (dgram : List ℕ) (from : Addr) (l : Listener)
    → IsOpenTable l
    → (l' : Listener) × (effects : List Effect) × (dispatch now random dgram from l
        ≡ ok (l', effects))
      × IsOpenTable l'
unfolding dispatch
dispatch-IsOpenTable now random dgram from l t = elim (Result-cases (parse_udp dgram)) [
  | inl (e, garbage) ↦ (l, [], rw (garbage, dispatch) refl, t)
  | inr ((h, f), parsed) ↦
      let pos = parse_udp_counted dgram f h parsed in
      elim (Option-cases (lookup h.conn_id l.conns)) [
        | inr (c, there) ↦
            let (l', effects, served, t') = serve_open now random h f from c l pos there t in
            (l', effects, rw (parsed, dispatch) (rw (there, dispatch) served), t')
        | inl absent ↦ elim (Bool-cases (is_hello h)) [
          | inr stray ↦ (l, [], rw (parsed, dispatch) (rw (absent, dispatch) (rw stray refl)), t)
          | inl hello ↦ elim (Bool-cases (leb l.max_connections (length l.conns))) [
            | inl at_limit ↦ (
              l,
              [],
              rw (parsed, dispatch) (rw (absent, dispatch) (rw hello (rw at_limit refl))),
              t,
            )
            | inr room ↦
                let c = new_conn h.conn_id from now in
                let there : lookup h.conn_id (insert h.conn_id c l.conns) ≡ some c =
                  ground (arith, lookup-insert h.conn_id h.conn_id c l.conns) in
                let (l', effects, served, t') =
                  serve_open now random h f from c
                    (record l {
                      conns = insert h.conn_id c l.conns;
                      handlers = h.conn_id ∷ l.handlers;
                    })
                    pos there (opened h.conn_id from now l room t) in
                (
                  l',
                  effects,
                  rw (parsed, dispatch) (rw (absent, dispatch) (rw hello (rw room served))),
                  t',
                )
          ]
        ]
      ]
]

-- ===== src/Udp/Listener.antt =====
-- `UDPListener` of pkg/mtproto/transport/udp.go: the table of connections and what changes it.
pub mod Open
pub mod Handlers
use messaging_app.Prelude.{
  List, Option, Result, [], err, if◌then◌else◌, leb, length, ltb, none, not, ok, some, ℕ, ◌++◌, ◌-◌,
  ◌==◌, ◌>>=◌, ◌>>◌, ◌∷◌,
}
use messaging_app.Prelude.Assoc.{erase, insert, lookup}
use messaging_app.Udp.{Header, Panic, is_hello}
use messaging_app.Udp.Conn.{Addr, Conn, Effect, close, new_conn, on_datagram, remove, send}
use messaging_app.Udp.Datagram.{parse_udp}
use messaging_app.Udp.Reassembly.{sweep_partials}

-- `conns` and `MaxConnections`; `handlers` lists the ids of the handler goroutines that run.
pub record Listener : Type 0 where
  pub max_connections : ℕ
  pub conns : List (ℕ × Conn)
  pub handlers : List ℕ

-- `Active`
unfoldable pub active : Listener → ℕ
active l = length l.conns

-- `l.remove` for each connection that a method removes; datagrams change no table.
unfoldable pub apply_removals : List Effect → List (ℕ × Conn) → List (ℕ × Conn)
apply_removals [] conns = conns
apply_removals (send d a ∷ es) conns = apply_removals es conns
apply_removals (remove id ∷ es) conns = apply_removals es (erase id conns)

-- `c.onDatagram` on the listener's connection, with its effects on the table.
unfoldable pub serve :
    ℕ
    → Option (List ℕ)
    → Header
    → List ℕ
    → Addr
    → Conn
    → Listener
    → Result Panic (Listener × List Effect)
serve now random h payload addr c l = do
  (c', effects) ← on_datagram now random h payload addr c
  ok (record l { conns = apply_removals effects (insert h.conn_id c' l.conns) }, effects)

-- `dispatch`: garbage, datagrams of unknown connections that do not open one, and openings beyond the
-- capacity are dropped. `newConn` is the branch for an opening.
unfoldable pub dispatch :
    ℕ → Option (List ℕ) → List ℕ → Addr → Listener → Result Panic (Listener × List Effect)
dispatch now random dgram addr l = elim (parse_udp dgram) [
  | err e ↦ ok (l, [])
  | ok (h, payload) ↦ elim (lookup h.conn_id l.conns) [
    | some c ↦ serve now random h payload addr c l
    | none ↦
        if not (is_hello h)
        then ok (l, [])
        else if leb l.max_connections (length l.conns)
        then ok (l, [])
        else let c = new_conn h.conn_id addr now in
          serve now random h payload addr c
            (record l { conns = insert h.conn_id c l.conns; handlers = h.conn_id ∷ l.handlers })
  ]
]

drop_one : ℕ → List ℕ → List ℕ
drop_one id [] = []
drop_one id (j ∷ js) = if j == id then js else j ∷ drop_one id js

-- The end of a handler goroutine: its deferred `l.remove(hdr.connID)`.
unfoldable pub handler_exit : ℕ → Listener → Listener
unfolding drop_one
handler_exit id l = record l { conns = erase id l.conns; handlers = drop_one id l.handlers }

-- One tick of `reaper`: stale partial messages go, and connections that have been silent too long
-- are closed, which takes them off the table.
unfoldable pub reap : ℕ → List (ℕ × Conn) → List (ℕ × Conn) × List Effect
reap now [] = ([], [])
reap now ((id, c) ∷ conns) =
    let (rest, effects) = reap now conns in
    let swept = record c { partials = sweep_partials now c.partials } in
    if ltb c.idle (now - c.last_seen)
    then (rest, (close swept).1 ++ effects)
    else ((id, swept) ∷ rest, effects)

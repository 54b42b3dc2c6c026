-- ===== src/Udp/Tests.antt =====
-- Datagrams and connections on small inputs.
use messaging_app.Udp.Client
use messaging_app.Udp.Conn
use messaging_app.Prelude.{
  List, Option, [], arith, err, false, if◌then◌else◌, length-replicate, none, ok, refl, replicate,
  some, true, ℕ, ◌*◌, ◌+◌, ◌-◌, ◌/◌, ◌==◌, ◌∷◌, ◌≡◌, ◌⊎◌,
}
use messaging_app.Prelude.Bytes.{All, get_be, get_le, put_be, put_le, slice}
use messaging_app.Udp.{
  Header, flag_data, flag_path_response, is_close, is_path_response, send_on_closed_channel,
}
use messaging_app.Udp.Client.{Client, IsRefused, write_frame-IsRefused}
use messaging_app.Udp.Conn.{
  Addr, Conn, Effect, challenged_within, complete_migration, new_conn, on_datagram, second,
}
use messaging_app.Udp.Conn.Bounds.{IsBounded, on_datagram-IsBounded}
use messaging_app.Udp.Conn.Delivery.{on_datagram_after_close, on_datagram_total}
use messaging_app.Udp.Conn.Migration.{remote-on_datagram}
use messaging_app.Udp.Datagram.{fields, marshal, parse_udp}
use messaging_app.Udp.Datagram.RoundTrip.{parse_udp-marshal}
use messaging_app.Udp.Listener.{Listener, dispatch, handler_exit}
use messaging_app.Udp.Listener.Handlers.{handler_exit-dispatch}
use messaging_app.Udp.Listener.Open.{IsOpenTable, dispatch-IsOpenTable}
use messaging_app.Udp.Reassembly.{Partial, fragment_count, reassemble}
use messaging_app.Udp.Reassembly.AnyOrder.{Event, arrive, sweep}
use messaging_app.Udp.Reassembly.Slots.{IsTable, reassemble-IsTable}

abbrev some_header : Header
some_header = record {
  flags = flag_data;
  conn_id = 5;
  msg_seq = 1;
  frag_index = 0;
  frag_count = 1;
  payload_len = 3;
}

parse_udp-marshal_example :
    parse_udp (marshal some_header (1 ∷ 2 ∷ 3 ∷ [])) ≡ ok (some_header, 1 ∷ 2 ∷ 3 ∷ [])
parse_udp-marshal_example = parse_udp-marshal some_header (1 ∷ 2 ∷ 3 ∷ []) (record {
  flags = omega arith;
  conn_id = omega arith;
  msg_seq = omega arith;
  frag_index = omega arith;
  frag_count = omega arith;
})

-- A frame of two fragments.
abbrev two_chunks : List ℕ
two_chunks = replicate 1300 1

two_chunks_count : fragment_count two_chunks ≡ 2
unfolding fragment_count
two_chunks_count = refl

-- Both fragments, with a sweep between them and a late one after them.
abbrev in_turn : List Event
in_turn = arrive 10 1 ∷ sweep 15 ∷ arrive 20 0 ∷ sweep 9_000_000_000 ∷ []

empty-IsTable : IsTable []
empty-IsTable = record { few = omega arith; kept = tt }

reassemble-IsTable_example :
    (r : List (ℕ × Partial) × Option (List ℕ)) × (reassemble 10
        (record some_header { frag_count = 2 })
        (1 ∷ [])
        []
      ≡ ok r)
    × IsTable r.0
reassemble-IsTable_example =
    reassemble-IsTable 10 (record some_header { frag_count = 2 }) (1 ∷ []) [] (omega arith)
      empty-IsTable

abbrev home : Addr
home = record { ip = 1; port = 1000 }

abbrev away : Addr
away = record { ip = 2; port = 2000 }

-- A connection that has challenged the new address.
abbrev challenging : Conn
challenging = record (new_conn 5 home 0) {
  challenge = record { token = replicate 8 9; addr = some away; at = some 100 };
}

abbrev echo : Header
echo = record some_header { flags = flag_path_response }

abbrev migrated : Conn
migrated = complete_migration 200 (replicate 8 9) away (record challenging { last_seen = 200 })

remote-on_datagram_example :
    (migrated.remote ≡ home)
    ⊎ ((migrated.remote ≡ away)
        × (is_path_response echo ≡ true)
        × (is_close echo ≡ false)
        × (challenging.challenge.addr ≡ some away)
        × (replicate 8 9 ≡ challenging.challenge.token)
        × (challenged_within 200 (5 * second + 1) challenging.challenge ≡ true))
unfolding on_datagram new_conn
remote-on_datagram_example =
    remote-on_datagram 200 none echo (replicate 8 9) away challenging migrated [] refl

on_datagram-IsBounded_example : IsBounded migrated
unfolding on_datagram new_conn
on_datagram-IsBounded_example =
    on_datagram-IsBounded 200 none echo (replicate 8 9) away challenging migrated [] (omega arith)
      (record { queue = omega arith; table = empty-IsTable }) refl

on_datagram_total_example :
    (r : Conn × List Effect) × (on_datagram 200 none some_header (1 ∷ []) home (new_conn 5 home 0)
      ≡ ok r)
    × IsBounded r.0
unfolding new_conn
on_datagram_total_example =
    on_datagram_total 200 none some_header (1 ∷ []) home (new_conn 5 home 0) (omega arith) refl
      (record { queue = omega arith; table = empty-IsTable })

on_datagram_after_close_example :
    on_datagram 200 none some_header (1 ∷ []) home (Conn.close (new_conn 5 home 0)).0
    ≡ err send_on_closed_channel
on_datagram_after_close_example =
    on_datagram_after_close 200 none some_header (1 ∷ []) home (new_conn 5 home 0) refl refl refl
      refl (omega arith)

abbrev one_conn : Listener
one_conn = record { max_connections = 1; conns = (5, new_conn 5 home 0) ∷ []; handlers = 5 ∷ [] }

-- A datagram of one payload byte.
abbrev some_datagram : List ℕ
some_datagram = marshal (record some_header { payload_len = 1 }) (7 ∷ [])

dispatch-IsOpenTable_example :
    (l : Listener) × (effects : List Effect) × (dispatch 100 none some_datagram home one_conn
      ≡ ok (l, effects))
    × IsOpenTable l
unfolding new_conn
dispatch-IsOpenTable_example = dispatch-IsOpenTable 100 none some_datagram home one_conn (record {
  opens = ((refl, refl), tt);
  bounded = (record { queue = omega arith; table = empty-IsTable }, tt);
  within = omega arith;
})

handler_exit-dispatch_example :
    dispatch 100 none some_datagram home (handler_exit 5 one_conn)
    ≡ ok (handler_exit 5 one_conn, [])
unfolding parse_udp marshal fields slice put_be get_be put_le get_le
handler_exit-dispatch_example =
    handler_exit-dispatch 100 none some_datagram (7 ∷ []) (record some_header { payload_len = 1 })
      home one_conn refl refl

abbrev some_client : Client
some_client = record { id = 5; send_seq = 0; inbox = []; partials = []; closed = false }

long_count :
    (n : ℕ)
    → fragment_count (replicate n 1)
      ≡ (let total = (n + 1208 - 1) / 1208 in if total == 0 then 1 else total)
unfolding fragment_count
long_count n = rw (length-replicate {0} {A = ℕ} n 1) refl

write_frame-IsRefused_example :
    (ds : List (List ℕ)) × ((Client.write_frame (replicate 618497 1) some_client).0 ≡ ok ds)
    × All IsRefused ds
write_frame-IsRefused_example =
    write_frame-IsRefused (replicate 618497 1) some_client refl (omega arith)
      (rw (long_count 618497) (omega arith)) (rw (long_count 618497) (omega arith))

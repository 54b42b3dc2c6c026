-- ===== src/Udp/Listener/Handlers.antt =====
-- Handler goroutines of the listener, each of which takes its connection id off the table when it ends.
use messaging_app.Prelude.{List, Option, [], arith, false, none, ok, refl, ℕ, ◌≡◌}
use messaging_app.Prelude.Assoc.{erase, lookup, lookup-erase}
use messaging_app.Udp.{Header, is_hello}
use messaging_app.Udp.Conn.{Addr}
use messaging_app.Udp.Datagram.{parse_udp}
use messaging_app.Udp.Listener.{Listener, dispatch, handler_exit}

-- Whatever connection stands in the table under the id of a handler, the end of the handler takes
-- it off: a datagram for that id that does not open a connection is dropped after it.
pub handler_exit-dispatch :
    (now : ℕ) (random : Option (List ℕ)) (dgram f : List ℕ) (h : Header) (from : Addr)
    (l : Listener)
    → parse_udp dgram ≡ ok (h, f)
    → is_hello h ≡ false
    → dispatch now random dgram from (handler_exit h.conn_id l) ≡ ok (handler_exit h.conn_id l, [])
unfolding dispatch handler_exit
handler_exit-dispatch now random dgram f h from l parsed stray =
    let gone : lookup h.conn_id (erase h.conn_id l.conns) ≡ none =
      ground (arith, lookup-erase h.conn_id h.conn_id l.conns) in
    rw (parsed, dispatch) (rw (gone, dispatch) (rw stray refl))

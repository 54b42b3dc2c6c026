-- ===== src/Udp/Client.antt =====
-- `UDPClient` of pkg/mtproto/transport/udp.go, the client half, which the load generator uses.
use messaging_app.Prelude.{
  Bool, List, Option, Result, [], arith, err, false, if◌then◌else◌, length, ltb, none, not, ok,
  refl, some, suc, true, zero, ℕ, ◌%◌, ◌++◌, ◌+◌, ◌<◌, ◌==◌, ◌>>=◌, ◌^◌, ◌∷◌, ◌≡◌,
}
use messaging_app.Prelude.Assoc.{erase, insert, lookup}
use messaging_app.Prelude.Bytes.{All, get_be}
use messaging_app.Udp.{
  Error, Header, Panic, bad_datagram, conn_closed, flag_close, flag_hello, flag_path_response,
  is_close, is_data, is_path_challenge, max_fragments,
}
use messaging_app.Udp.Conn.{control}
use messaging_app.Udp.Datagram.{marshal, parse_udp}
use messaging_app.Udp.Datagram.RoundTrip.{FitsWidths, parse_udp-marshal}
use messaging_app.Udp.Reassembly.{
  Partial, chunk, data_header, datagrams_from, fragment_count, join, new_partial, store,
}

-- The client's state. Its table of partial messages has no bound and is never swept.
pub record Client : Type 0 where
  pub id : ℕ
  pub send_seq : ℕ
  pub inbox : List (List ℕ)
  pub partials : List (ℕ × Partial)
  pub closed : Bool

-- The capacity of its channel.
abbrev pub client_inbox_size : ℕ
client_inbox_size = 64

-- `DialUDP` with the 8 random bytes, and the opening datagram.
unfoldable pub dial : List ℕ → Client × List (List ℕ)
unfolding control
dial random = (
  record { id = get_be random; send_seq = 0; inbox = []; partials = []; closed = false },
  marshal (control flag_hello (get_be random)) [] ∷ [],
)

unfoldable pub offer : List ℕ → Client → Client
offer f c =
    if ltb (length c.inbox) client_inbox_size then record c { inbox = c.inbox ++ f ∷ [] } else c

-- A fragment of `readLoop`: it is kept if its index is below the total of the message's first
-- fragment, whatever total its own header says.
unfoldable pub add_part : ℕ → Header → List ℕ → Client → Result Panic Client
add_part now h payload c =
    let p : Partial = elim (lookup h.msg_seq c.partials) [
      | some q ↦ q
      | none ↦ new_partial h.frag_count now
    ] in
    do
      p' ← if ltb h.frag_index p.total then store h.frag_index payload p else ok p
      ok (
          if p'.received == p'.total
          then offer (join p'.fragments) (record c { partials = erase h.msg_seq c.partials })
          else record c { partials = insert h.msg_seq p' c.partials })

-- One turn of `readLoop`: the new state and the datagrams written. Challenges are answered at once.
unfoldable pub read_loop : ℕ → List ℕ → Client → Result Panic (Client × List (List ℕ))
unfolding control
read_loop now dgram c = elim (parse_udp dgram) [
  | err e ↦ ok (c, [])
  | ok (h, payload) ↦
      if is_path_challenge h
      then ok (c, marshal (control flag_path_response c.id) payload ∷ [])
      else if is_close h
      then ok (record c { closed = true }, [])
      else if not (is_data h)
      then ok (c, [])
      else if h.frag_count == 1
      then ok (offer payload c, [])
      else (do c' ← add_part now h payload c; ok (c', []))
]

-- `WriteFrame` of the client
unfoldable pub write_frame : List ℕ → Client → Result Error (List (List ℕ)) × Client
write_frame f c =
    if c.closed
    then (err conn_closed, c)
    else let seq = (c.send_seq + 1) % 2 ^ 32 in
      let total = fragment_count f in
      (ok (datagrams_from c.id seq total f 0 total), record c { send_seq = seq })

-- `ReadFrame` when a frame or the end of the channel is there; frames that are buffered still come
-- after the end.
unfoldable pub read_frame : Client → Option (Result Error (List ℕ × Client))
read_frame c = elim c.inbox [
  | [] ↦ if c.closed then some (err conn_closed) else none
  | f ∷ rest ↦ some (ok (f, record c { inbox = rest }))
]

-- `Close`; the loop ends when its read fails.
unfoldable pub close : Client → List (List ℕ)
unfolding control
close c = marshal (control flag_close c.id) [] ∷ []

abbrev pub IsRefused : List ℕ → Type 0
IsRefused d = parse_udp d ≡ err bad_datagram

IsRefused-from :
    (id seq total : ℕ) (f : List ℕ) (i n : ℕ)
    → id < 2 ^ 64
    → seq < 2 ^ 32
    → max_fragments < total
    → total < 2 ^ 16
    → All IsRefused (datagrams_from id seq total f i n)
unfolding datagrams_from data_header
IsRefused-from id seq total f i zero id_fits seq_fits many few = tt
IsRefused-from id seq total f i (suc n) id_fits seq_fits many few =
    let h = data_header id seq total i in
    let fits : FitsWidths h = record {
      flags = omega arith;
      conn_id = omega (arith, id_fits);
      msg_seq = omega (arith, seq_fits);
      frag_index = omega arith;
      frag_count = omega arith;
    } in
    let refused : IsRefused (marshal h (chunk f i)) =
      rw (parse_udp-marshal h (chunk f i) fits) (ground arith) in
    (refused, IsRefused-from id seq total f (i + 1) n id_fits seq_fits many few)

-- A frame of more than 512 and fewer than 65536 fragments is written by an open client with a
-- 64-bit id without an error, and the server's parser refuses every datagram of it.
pub write_frame-IsRefused :
    (f : List ℕ) (c : Client)
    → c.closed ≡ false
    → c.id < 2 ^ 64
    → max_fragments < fragment_count f
    → fragment_count f < 2 ^ 16
    → (ds : List (List ℕ)) × ((write_frame f c).0 ≡ ok ds) × All IsRefused ds
unfolding write_frame
write_frame-IsRefused f c live id_fits many few = (
  datagrams_from c.id ((c.send_seq + 1) % 2 ^ 32) (fragment_count f) f 0 (fragment_count f),
  rw live refl,
  IsRefused-from c.id ((c.send_seq + 1) % 2 ^ 32) (fragment_count f) f 0 (fragment_count f) id_fits
      (omega arith) many few,
)

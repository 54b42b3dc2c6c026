-- ===== src/Udp/Conn.antt =====
-- `udpConn` of pkg/mtproto/transport/udp.go: one logical connection. Methods return the new state and
-- the datagrams written; times are nanoseconds, and the bytes that `rand.Read` gives are arguments.
pub mod Bounds
pub mod Migration
pub mod Delivery
use messaging_app.Prelude.{
  Bool, List, Option, Result, [], err, false, if◌then◌else◌, leb, length, ltb, none, ok, replicate,
  some, true, ℕ, ◌%◌, ◌&&◌, ◌*◌, ◌++◌, ◌+◌, ◌-◌, ◌==◌, ◌>>=◌, ◌>>◌, ◌^◌, ◌∷◌,
}
use messaging_app.Prelude.Bytes.{bytes_eq}
use messaging_app.Udp.{
  Error, Header, Panic, conn_closed, flag_close, flag_path_challenge, is_close, is_data,
  is_path_response, max_fragments, max_frame_size, send_on_closed_channel, too_large,
  too_many_fragments,
}
use messaging_app.Udp.Datagram.{marshal}
use messaging_app.Udp.Reassembly.{Partial, datagrams_from, fragment_count, reassemble}

-- `net.UDPAddr`: `net.IP.Equal` compares the address that an IP stands for, which `ip` is.
pub record Addr : Type 0 where
  pub ip : ℕ
  pub port : ℕ

-- The part of the state that path validation uses; no challenge was sent before `at` is set.
pub record Challenge : Type 0 where
  pub token : List ℕ
  pub addr : Option Addr
  pub at : Option ℕ

pub record Conn : Type 0 where
  pub id : ℕ
  pub remote : Addr
  pub challenge : Challenge
  pub inbox : List (List ℕ)
  pub partials : List (ℕ × Partial)
  pub send_seq : ℕ
  pub idle : ℕ
  pub last_seen : ℕ
  pub closed : Bool

-- What a method does to the world: a datagram for an address, and `l.remove(c.id)`.
pub data Effect : Type 0 where
  send : List ℕ → Addr → Effect
  remove : ℕ → Effect

-- The capacity of the channel of inbound frames.
abbrev pub inbox_size : ℕ
inbox_size = 256

abbrev pub second : ℕ
second = 1_000_000_000

-- `defaultIdleTimeout` of transport.go.
abbrev pub default_idle_timeout : ℕ
default_idle_timeout = 150 * second

abbrev pub same_addr : Addr → Addr → Bool
same_addr a b = a.ip == b.ip && a.port == b.port

-- A datagram of one flag and no fragmentation, as the code builds them.
unfoldable pub control : ℕ → ℕ → Header
control flags conn_id = record {
  flags = flags;
  conn_id = conn_id;
  msg_seq = 0;
  frag_index = 0;
  frag_count = 1;
  payload_len = 0;
}

-- `newConn`'s value for a new connection.
unfoldable pub new_conn : ℕ → Addr → ℕ → Conn
new_conn id addr now = record {
  id = id;
  remote = addr;
  challenge = record { token = replicate 8 0; addr = none; at = none };
  inbox = [];
  partials = [];
  send_seq = 0;
  idle = default_idle_timeout;
  last_seen = now;
  closed = false;
}

-- `deliver`: the channel is closed with the connection; a full channel drops the frame.
unfoldable pub deliver : List ℕ → Conn → Result Panic Conn
deliver frame c =
    if c.closed
    then err send_on_closed_channel
    else if ltb (length c.inbox) inbox_size
    then ok (record c { inbox = c.inbox ++ frame ∷ [] })
    else ok c

-- `Close`: only the first call acts.
unfoldable pub close : Conn → Conn × List Effect
unfolding control
close c = if c.closed then (c, []) else (
  record c { closed = true },
  send (marshal (control flag_close c.id) []) c.remote ∷ remove c.id ∷ [],
)

-- `time.Since(c.challengeAt) < d`, which is false before the first challenge.
unfoldable pub challenged_within : ℕ → ℕ → Challenge → Bool
challenged_within now d ch = elim ch.at [ none ↦ false | some at ↦ ltb (now - at) d ]

-- `beginMigration`: `random` is the outcome of `rand.Read`, `none` its failure.
unfoldable pub begin_migration : ℕ → Option (List ℕ) → Addr → Conn → Conn × List Effect
unfolding challenged_within control
begin_migration now random to c =
    if challenged_within now second c.challenge then (c, []) else elim random [
      | none ↦ (c, [])
      | some token ↦ (
        record c { challenge = record { token = token; addr = some to; at = some now } },
        send (marshal (control flag_path_challenge c.id) token) to ∷ [],
      )
    ]

-- The tests of `completeMigration`, in its order: a challenge that is at most 5 seconds old, the
-- address that it went to, and the token.
unfoldable pub echo_valid : ℕ → List ℕ → Addr → Challenge → Bool
echo_valid now payload from ch = elim ch.addr [
  | none ↦ false
  | some to ↦
      elim ch.at [ none ↦ false | some at ↦ leb (now - at) (5 * second) ]
      && (same_addr to from && bytes_eq payload ch.token)
]

-- `completeMigration`
unfoldable pub complete_migration : ℕ → List ℕ → Addr → Conn → Conn
complete_migration now payload from c =
    if echo_valid now payload from c.challenge
    then record c { remote = from; challenge = record c.challenge { addr = none } }
    else c

-- The part of `onDatagram` behind the data flag: one datagram is delivered unless it is empty, and
-- a fragment is added to its message.
unfoldable pub take_data : ℕ → Header → List ℕ → Conn → Result Panic Conn
take_data now h payload c =
    if h.frag_count == 1 then (if length payload == 0 then ok c else deliver payload c) else do
      (table, message) ← reassemble now h payload c.partials
      let c' = record c { partials = table }
      elim message [ none ↦ ok c' | some frame ↦ deliver frame c' ]

-- The path validation of `onDatagram`: a datagram from another address starts a challenge there.
unfoldable pub validate_path : ℕ → Option (List ℕ) → Addr → Conn → Conn × List Effect
validate_path now random from c =
    if same_addr c.remote from then (c, []) else begin_migration now random from c

-- The rest of `onDatagram`: nothing is taken from a datagram without the data flag.
unfoldable pub serve_data :
    ℕ → Header → List ℕ → Conn × List Effect → Result Panic (Conn × List Effect)
serve_data now h payload (c, effects) =
    if is_data h then (do c' ← take_data now h payload c; ok (c', effects)) else ok (c, effects)

-- `onDatagram`
unfoldable pub on_datagram :
    ℕ → Option (List ℕ) → Header → List ℕ → Addr → Conn → Result Panic (Conn × List Effect)
on_datagram now random h payload from c =
    let seen = record c { last_seen = now } in
    if is_close h
    then ok (close seen)
    else if is_path_response h
    then ok (complete_migration now payload from seen, [])
    else serve_data now h payload (validate_path now random from seen)

-- `ReadFrame` when a frame or the end of the channel is there; `none` waits for one.
unfoldable pub read_frame : Conn → Option (Result Error (List ℕ × Conn))
read_frame c =
    if c.closed
    then some (err conn_closed)
    else elim c.inbox [ [] ↦ none | f ∷ rest ↦ some (ok (f, record c { inbox = rest })) ]

-- `WriteFrame` of the server's side; the sequence number is taken before the fragments are counted.
unfoldable pub write_frame : List ℕ → Conn → Result Error (List (List ℕ)) × Conn
write_frame frame c =
    if c.closed
    then (err conn_closed, c)
    else if ltb max_frame_size (length frame)
    then (err too_large, c)
    else let seq = (c.send_seq + 1) % 2 ^ 32 in
      let c' = record c { send_seq = seq } in
      let total = fragment_count frame in
      if ltb max_fragments total
      then (err too_many_fragments, c')
      else (ok (datagrams_from c.id seq total frame 0 total), c')

-- `SetIdleTimeout`, for a duration that is not negative.
unfoldable pub set_idle_timeout : ℕ → Conn → Conn
set_idle_timeout d c = if ltb 0 d then record c { idle = d } else c

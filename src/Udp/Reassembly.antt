-- ===== src/Udp/Reassembly.antt =====
-- The reassembly of fragmented messages in pkg/mtproto/transport/udp.go, and its fragmentation.
pub mod Indexed
pub mod Slots
pub mod Chunks
pub mod AnyOrder
pub mod Arrivals
pub mod Complete
use messaging_app.Prelude.{
  Bool, List, Option, Result, [], drop, err, false, get_elem?, if◌then◌else◌, leb, length, ltb,
  none, not, ok, replicate, set, some, suc, take, true, zero, ℕ, ◌%◌, ◌&&◌, ◌*◌, ◌++◌, ◌+◌, ◌-◌,
  ◌/◌, ◌==◌, ◌>>=◌, ◌>>◌, ◌^◌, ◌||◌, ◌∷◌,
}
use messaging_app.Prelude.Assoc.{erase, insert, lookup}
use messaging_app.Udp.{Header, Panic, flag_data, index_out_of_range, max_frame_size, max_payload}
use messaging_app.Udp.Datagram.{marshal}

-- `partial`. A fragment that has not come is `none`; times are nanoseconds.
pub record Partial : Type 0 where
  pub fragments : List (Option (List ℕ))
  pub received : ℕ
  pub total : ℕ
  pub bytes : ℕ
  pub started : ℕ

-- The entry made for the first fragment of a message.
unfoldable pub new_partial : ℕ → ℕ → Partial
new_partial count now = record {
  fragments = replicate count none;
  received = 0;
  total = count;
  bytes = 0;
  started = now;
}

unfoldable pub is_missing : Option (Option (List ℕ)) → Bool
is_missing (some none) = true
is_missing _ = false

-- A fragment is kept once; a repetition changes nothing.
unfoldable pub fill : ℕ → List ℕ → Partial → Partial
unfolding is_missing
fill index payload p =
    if is_missing (get_elem? p.fragments index)
    then record p {
      fragments = set p.fragments index (some payload);
      received = p.received + 1;
      bytes = p.bytes + length payload;
    }
    else p

-- The access `p.fragments[h.fragIndex]`, which panics past the end of the slice.
unfoldable pub store : ℕ → List ℕ → Partial → Result Panic Partial
store index payload p =
    if leb (length p.fragments) index then err index_out_of_range else ok (fill index payload p)

-- `full = append(full, f...)` over all fragments.
unfoldable pub join : List (Option (List ℕ)) → List ℕ
join [] = []
join (none ∷ fs) = join fs
join (some f ∷ fs) = f ++ join fs

-- What is left of a message after a fragment of it is stored, and the message if it is complete.
unfoldable pub settle : ℕ → Partial → List (ℕ × Partial) → List (ℕ × Partial) × Option (List ℕ)
settle seq p table =
    let complete = p.received == p.total in
    let too_big = ltb max_frame_size p.bytes in
    (
      if complete || too_big then erase seq table else insert seq p table,
      if not too_big && complete then some (join p.fragments) else none,
    )

-- What `onDatagram` does with a fragment: the table of partial messages after it, and the message
-- if it is complete now. `maxPartials` is 64 in the source.
unfoldable pub add_fragment :
    Header
    → List ℕ
    → Partial
    → List (ℕ × Partial)
    → Result Panic (List (ℕ × Partial) × Option (List ℕ))
add_fragment h payload p table =
    if not (p.total == h.frag_count) || leb p.total h.frag_index
    then ok (table, none)
    else do p' ← store h.frag_index payload p; ok (settle h.msg_seq p' table)

abbrev pub max_partials : ℕ
max_partials = 64

unfoldable pub reassemble :
    ℕ → Header → List ℕ → List (ℕ × Partial) → Result Panic (List (ℕ × Partial) × Option (List ℕ))
reassemble now h payload table = elim (lookup h.msg_seq table) [
  | some p ↦ add_fragment h payload p table
  | none ↦
      if leb max_partials (length table)
      then ok (table, none)
      else let p = new_partial h.frag_count now in
        add_fragment h payload p (insert h.msg_seq p table)
]

-- `udpReassemblyTTL`, in nanoseconds.
abbrev pub reassembly_ttl : ℕ
reassembly_ttl = 3_000_000_000

-- `sweepPartials`
unfoldable pub sweep_partials : ℕ → List (ℕ × Partial) → List (ℕ × Partial)
sweep_partials now [] = []
sweep_partials now ((seq, p) ∷ table) =
    let rest = sweep_partials now table in
    if ltb reassembly_ttl (now - p.started) then rest else (seq, p) ∷ rest

-- The number of datagrams for a frame: at least one.
unfoldable pub fragment_count : List ℕ → ℕ
fragment_count frame =
    let total = (length frame + max_payload - 1) / max_payload in if total == 0 then 1 else total

-- `frame[start:end]` of the i-th datagram.
unfoldable pub chunk : List ℕ → ℕ → List ℕ
chunk frame i = take max_payload (drop (i * max_payload) frame)

-- The header of the i-th datagram of a frame; `uint16` wraps, and `marshal` fills in the length.
unfoldable pub data_header : ℕ → ℕ → ℕ → ℕ → Header
data_header conn_id seq total i = record {
  flags = flag_data;
  conn_id = conn_id;
  msg_seq = seq;
  frag_index = i % 2 ^ 16;
  frag_count = total % 2 ^ 16;
  payload_len = 0;
}

-- The `n` datagrams from the i-th on, as they are written to the socket.
unfoldable pub datagrams_from : ℕ → ℕ → ℕ → List ℕ → ℕ → ℕ → List (List ℕ)
datagrams_from conn_id seq total frame i zero = []
datagrams_from conn_id seq total frame i (suc n) =
    marshal (data_header conn_id seq total i) (chunk frame i)
    ∷ datagrams_from conn_id seq total frame (i + 1) n

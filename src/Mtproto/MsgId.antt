-- ===== src/Mtproto/MsgId.antt =====
-- pkg/mtproto/message.go: message identifiers, their validation, and sequence numbers.
pub mod Order
pub mod Window
use messaging_app.Prelude.{
  Bool, List, Result, [], drop, if◌then◌else◌, is_some, leb, length, ltb, max, not, ok, refuse, ℕ,
  ◌%◌, ◌*◌, ◌+◌, ◌-◌, ◌/◌, ◌==◌, ◌>>=◌, ◌>>◌, ◌^◌, ◌∷◌,
}
use messaging_app.Mtproto.{Error, msg_id_parity, msg_id_replay, msg_id_too_new, msg_id_too_old}
use messaging_app.Prelude.Assoc.{insert, lookup}

-- `MsgIDGenerator`; a signed 64-bit integer is the unsigned one of the same bits.
pub record Generator : Type 0 where
  pub last : ℕ
  pub offset : ℕ

-- `a <= b` of signed 64-bit integers.
unfoldable pub signed_leb : ℕ → ℕ → Bool
signed_leb a b = leb ((a + 2 ^ 63) % 2 ^ 64) ((b + 2 ^ 63) % 2 ^ 64)

-- `id &^ 3 | int64(kind & 3)`
unfoldable pub with_kind : ℕ → ℕ → ℕ
with_kind kind id = id / 4 * 4 + kind % 4

-- `MsgIDGenerator.Next`, at `now` unix seconds; the loop is left at once when no other goroutine
-- stores an id between the load and the exchange.
unfoldable pub next_id : ℕ → ℕ → Generator → ℕ × Generator
next_id kind now g =
    let candidate = (now + g.offset) * 2 ^ 32 % 2 ^ 64 in
    let stepped = if signed_leb candidate g.last then (g.last + 4) % 2 ^ 64 else candidate in
    let marked = with_kind kind stepped in
    let id = if signed_leb marked g.last then with_kind kind ((g.last + 4) % 2 ^ 64) else marked in
    (id, record g { last = id })

-- `AdoptPeerTime`, for a peer id that is not negative.
unfoldable pub adopt_peer_time : ℕ → ℕ → Generator → Generator
adopt_peer_time peer_id now g =
    let peer_seconds = peer_id / 2 ^ 32 in
    if ltb now peer_seconds then record g { offset = peer_seconds - now } else g

abbrev pub second : ℕ
second = 1_000_000_000

-- `MsgIDValidator`; durations and times are nanoseconds.
pub record Validator : Type 0 where
  pub behind : ℕ
  pub ahead : ℕ
  pub seen : List (ℕ × ℕ)
  pub max_seen : ℕ

-- `NewMsgIDValidator`
unfoldable pub new_validator : Validator
new_validator = record { behind = 300 * second; ahead = 30 * second; seen = []; max_seen = 8192 }

-- The time of an id, `msgID >> 32` seconds, and the clock, both with 2^31 seconds added: an id of
-- the upper half is negative, and so is its time.
unfoldable pub time_of : ℕ → ℕ
time_of id = (id / 2 ^ 32 + 2 ^ 31) % 2 ^ 32 * second

unfoldable pub clock : ℕ → ℕ
clock now = now + 2 ^ 31 * second

-- The entries that are not older than the window.
unfoldable pub sweep : ℕ → List (ℕ × ℕ) → List (ℕ × ℕ)
sweep cutoff [] = []
sweep cutoff ((id, at) ∷ seen) =
    let rest = sweep cutoff seen in if ltb at cutoff then rest else (id, at) ∷ rest

-- The room that `Check` makes: a sweep, and if that is not enough, half of the entries go, in the
-- order in which the map is iterated, which Go leaves open; at least one goes.
unfoldable pub make_room : (List (ℕ × ℕ) → List (ℕ × ℕ)) → ℕ → ℕ → ℕ → List (ℕ × ℕ) → List (ℕ × ℕ)
make_room order now behind max_seen seen =
    if ltb (length seen) max_seen
    then seen
    else let kept = sweep (now - behind) seen in
      if ltb (length kept) max_seen then kept else drop (max 1 (length kept / 2)) (order kept)

-- `Check`: the refusal, or the validator that knows the id.
unfoldable pub check : (List (ℕ × ℕ) → List (ℕ × ℕ)) → ℕ → ℕ → Validator → Result Error Validator
check order now id v = do
  refuse (not (id % 2 == 0)) msg_id_parity
  refuse (ltb v.behind (clock now - time_of id)) msg_id_too_old
  refuse (ltb v.ahead (time_of id - clock now)) msg_id_too_new
  refuse (is_some (lookup id v.seen)) msg_id_replay
  ok (record v { seen = insert id now (make_room order now v.behind v.max_seen v.seen) })

-- `SeqNoCounter.Next`: the number sent and the counter, both 32-bit.
unfoldable pub next_seq_no : Bool → ℕ → ℕ × ℕ
next_seq_no content_related n =
    if not content_related
    then (n * 2 % 2 ^ 32, n)
    else let v = (n + 1) % 2 ^ 32 in ((v * 2 + 2 ^ 32 - 1) % 2 ^ 32, v)

-- ===== src/Codec/Obfuscated.antt =====
-- pkg/mtproto/codec/obfuscated.go: a connection that looks like random bytes from its first packet
-- on. The keystream of AES-256 in counter mode, crypto/cipher, is a parameter: the byte at each
-- position for a key and an initial vector. A write to the network that fails is not modelled.
pub mod Stream
pub mod Packet
pub mod Accepted
mod Tests
use messaging_app.Prelude.{
  Bool, List, Result, [], drop, err, get_or, if◌then◌else◌, length, not, ok, replicate, reverse,
  suc, take, true, zero, ℕ, ◌&&◌, ◌++◌, ◌+◌, ◌==◌, ◌>>=◌, ◌>>◌, ◌||◌, ◌∷◌,
}
use messaging_app.Codec.{Error, Read, no_init_packet, not_obfuscable, not_obfuscated, read_full}
use messaging_app.Codec.Detect.{Framing, abridged, full, intermediate, padded}
use messaging_app.Prelude.Bits.{xor_bits}
use messaging_app.Prelude.Bytes.{get_le, put_le, slice}

abbrev pub init_packet_size : ℕ
init_packet_size = 64

-- The byte of the keystream at a position, for a key and an initial vector.
abbrev pub Keystream : Type 0
Keystream = List ℕ → List ℕ → ℕ → ℕ

-- `cipher.Stream` as `cipher.NewCTR` makes it: what it was made from, and how far it has come.
pub record CtrStream : Type 0 where
  pub key : List ℕ
  pub iv : List ℕ
  pub pos : ℕ

-- Each byte with the byte of the keystream at its position.
unfoldable pub xor_from : (ℕ → ℕ) → ℕ → List ℕ → List ℕ
xor_from k i [] = []
xor_from k i (x ∷ xs) = xor_bits 8 x (k i) ∷ xor_from k (suc i) xs

-- `XORKeyStream`
unfoldable pub xor_key_stream : Keystream → CtrStream → List ℕ → List ℕ × CtrStream
xor_key_stream ks s xs = (xor_from (ks s.key s.iv) s.pos xs, record s { pos = s.pos + length xs })

-- `ObfuscatedConn`, without the connection that it wraps. `dc_id` is the 16 bits of the `int16`.
pub record ObfuscatedConn : Type 0 where
  pub enc : CtrStream
  pub dec : CtrStream
  pub framing : Framing
  pub dc_id : ℕ

-- `newCTR` of the bytes 8 to 56, a key and an initial vector; a key of 32 bytes is never refused.
unfoldable pub forward_stream : List ℕ → CtrStream
forward_stream init = record { key = slice 8 32 init; iv = slice 40 16 init; pos = 0 }

-- `newCTR` of the same bytes in reverse order.
unfoldable pub backward_stream : List ℕ → CtrStream
backward_stream init =
    let rev = reverse (slice 8 48 init) in
    record { key = take 32 rev; iv = slice 32 16 rev; pos = 0 }

unfoldable pub all_abridged : List ℕ → Bool
all_abridged [] = true
all_abridged (b ∷ bs) = b == 0xef && all_abridged bs

-- The framing that the four bytes of a tag select.
unfoldable pub framing_of : List ℕ → Result Error Framing
framing_of tag =
    if all_abridged tag
    then ok abridged
    else if get_le tag == 0xeeeeeeee
    then ok intermediate
    else if get_le tag == 0xdddddddd
    then ok padded
    else err not_obfuscated

-- `AcceptObfuscated`: the connection, and the input after its first packet.
unfoldable pub accept_obfuscated : Keystream → List ℕ → Read ObfuscatedConn
accept_obfuscated ks s = do
  (init, rest) ← read_full init_packet_size s
  let dec = xor_key_stream ks (forward_stream init) init
  framing ← framing_of (slice 56 4 dec.0)
  let conn : ObfuscatedConn = record {
    enc = backward_stream init;
    dec = dec.1;
    framing = framing;
    dc_id = get_le (slice 60 2 dec.0);
  }
  ok (conn, rest)

-- `(*ObfuscatedConn).Read` of the bytes that the connection gave.
unfoldable pub read : Keystream → ObfuscatedConn → List ℕ → List ℕ × ObfuscatedConn
read ks o p = let r = xor_key_stream ks o.dec p in (r.0, record o { dec = r.1 })

-- `(*ObfuscatedConn).Write`: the bytes that go to the connection.
unfoldable pub write : Keystream → ObfuscatedConn → List ℕ → List ℕ × ObfuscatedConn
write ks o p = let r = xor_key_stream ks o.enc p in (r.0, record o { enc = r.1 })

-- The tests of `DialObfuscated` on the bytes that it drew: they begin like no other framing, and
-- like no request of HTTP or TLS.
unfoldable pub is_disguise : List ℕ → Bool
is_disguise init =
    let head = get_le (slice 0 4 init) in
    not (get_or init 0 0 == 0xef || get_or init 0 0 == 0)
    && not (
        head == 0xeeeeeeee
        || head == 0xdddddddd
        || head == 0x44414548
        || head == 0x54534f50
        || head == 0x20544547
        || head == 0x4954504f
        || head == 0x02010316)
    && not (get_le (slice 4 4 init) == 0)

-- The loop of `DialObfuscated`, with the number of draws that are left and the number of the next.
unfoldable pub draw : (ℕ → Result Error (List ℕ)) → ℕ → ℕ → Result Error (List ℕ)
draw rand zero i = err no_init_packet
draw rand (suc left) i = do
  init ← rand i
  let again = draw rand left (suc i)
  if is_disguise init then ok init else again

-- The bytes that announce a framing in the first packet.
unfoldable pub tag_of : Framing → Result Error (List ℕ)
tag_of abridged = ok (replicate 4 0xef)
tag_of intermediate = ok (put_le 4 0xeeeeeeee)
tag_of padded = ok (put_le 4 0xdddddddd)
tag_of (full c) = err not_obfuscable

-- `DialObfuscated`: what it writes first, and the connection. `rand` gives the 56 bytes of each
-- draw and `tail` the last two bytes.
unfoldable pub dial_obfuscated :
    Keystream
    → (ℕ → Result Error (List ℕ))
    → Result Error (List ℕ)
    → Framing
    → ℕ
    → Result Error (List ℕ × ObfuscatedConn)
dial_obfuscated ks rand tail framing dc_id = do
  drawn ← draw rand 33 0
  tag ← tag_of framing
  last ← tail
  let init = drawn ++ (tag ++ (put_le 2 dc_id ++ last))
  let enc = xor_key_stream ks (forward_stream init) init
  let conn : ObfuscatedConn = record {
    enc = enc.1;
    dec = backward_stream init;
    framing = framing;
    dc_id = dc_id;
  }
  ok (take 56 init ++ drop 56 enc.0, conn)

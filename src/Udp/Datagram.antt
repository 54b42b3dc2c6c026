-- ===== src/Udp/Datagram.antt =====
-- `udpHeader.marshal` and `parseUDP` of pkg/mtproto/transport/udp.go.
pub mod RoundTrip
use messaging_app.Prelude.{
  List, Result, [], drop, leb, length, ltb, not, ok, refuse, ℕ, ◌++◌, ◌-◌, ◌==◌, ◌>>=◌, ◌>>◌, ◌||◌,
  ◌∷◌,
}
use messaging_app.Prelude.Bytes.{get_be, put_be, slice}
use messaging_app.Udp.{Error, Header, bad_datagram, header_size, max_fragments}

-- `marshal`: 24 bytes of header, the last two reserved and 0, then the payload. The length field
-- holds the payload's length modulo 2^16, whatever the header's own field says.
unfoldable pub marshal : Header → List ℕ → List ℕ
marshal h payload =
    put_be 2 0x4D51
    ++ ((1 ∷ h.flags ∷ [])
        ++ (put_be 8 h.conn_id
            ++ (put_be 4 h.msg_seq
                ++ (put_be 2 h.frag_index
                    ++ (put_be 2 h.frag_count
                        ++ (put_be 2 (length payload) ++ (put_be 2 0 ++ payload)))))))

-- The header fields of a datagram that is long enough.
unfoldable pub fields : List ℕ → Header
unfolding slice
fields b = record {
  flags = get_be (slice 3 1 b);
  conn_id = get_be (slice 4 8 b);
  msg_seq = get_be (slice 12 4 b);
  frag_index = get_be (slice 16 2 b);
  frag_count = get_be (slice 18 2 b);
  payload_len = get_be (slice 20 2 b);
}

-- `parseUDP`
unfoldable pub parse_udp : List ℕ → Result Error (Header × List ℕ)
unfolding slice
parse_udp b = do
  refuse (ltb (length b) header_size) bad_datagram
  refuse (not (get_be (slice 0 2 b) == 0x4D51) || not (get_be (slice 2 1 b) == 1)) bad_datagram
  let h = fields b
  refuse (not (h.payload_len == length b - header_size)) bad_datagram
  refuse (h.frag_count == 0 || ltb max_fragments h.frag_count || leb h.frag_count h.frag_index)
      bad_datagram
  ok (h, drop header_size b)

-- ===== src/Udp.antt =====
-- pkg/mtproto/transport/udp.go: datagrams, connections and the listener that owns them.
pub mod Datagram
pub mod Reassembly
pub mod Conn
pub mod Listener
pub mod Client
mod Tests
use messaging_app.Prelude.{Bool, bit_set, ℕ, ◌*◌, ◌^◌}

-- `udpHeaderSize`
abbrev pub header_size : ℕ
header_size = 24

-- `udpMaxPayload`: 1280 - 24 - 48.
abbrev pub max_payload : ℕ
max_payload = 1208

-- `udpMaxFragments`
abbrev pub max_fragments : ℕ
max_fragments = 512

-- `maxFrameSize` of transport.go: 16 << 20.
abbrev pub max_frame_size : ℕ
max_frame_size = 16 * 2 ^ 20

-- `udpHeader`; the payload length is the payload's own.
pub record Header : Type 0 where
  pub flags : ℕ
  pub conn_id : ℕ
  pub msg_seq : ℕ
  pub frag_index : ℕ
  pub frag_count : ℕ
  pub payload_len : ℕ

-- The datagram flags, bits 0 to 4: `flags & udpFlagX != 0`.
abbrev pub is_data : Header → Bool
is_data h = bit_set h.flags 0

abbrev pub is_path_challenge : Header → Bool
is_path_challenge h = bit_set h.flags 1

abbrev pub is_path_response : Header → Bool
is_path_response h = bit_set h.flags 2

abbrev pub is_close : Header → Bool
is_close h = bit_set h.flags 3

abbrev pub is_hello : Header → Bool
is_hello h = bit_set h.flags 4

-- The flag bytes of the datagrams that the code itself sends.
abbrev pub flag_data : ℕ
flag_data = 1

abbrev pub flag_path_challenge : ℕ
flag_path_challenge = 2

abbrev pub flag_path_response : ℕ
flag_path_response = 4

abbrev pub flag_close : ℕ
flag_close = 8

abbrev pub flag_hello : ℕ
flag_hello = 16

-- Errors of the transport.
pub data Error : Type 0 where
  bad_datagram conn_closed too_large too_many_fragments : Error

-- The run-time panics that the code can meet, which end the process: a send on a channel that is
-- closed, and an index past the end of a slice.
pub data Panic : Type 0 where
  send_on_closed_channel index_out_of_range : Panic

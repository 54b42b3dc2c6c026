-- ===== src/Codec/Full.antt =====
-- `Full` of pkg/mtproto/codec/codec.go: length, sequence number, payload and CRC32. The checksum
-- is Go's hash/crc32, a parameter here.
pub mod RoundTrip
pub mod Sound
use messaging_app.Prelude.{
  List, Result, drop, length, ltb, not, ok, refuse, take, ℕ, ◌%◌, ◌++◌, ◌+◌, ◌-◌, ◌==◌, ◌>>=◌, ◌>>◌,
  ◌^◌, ◌||◌,
}
use messaging_app.Codec.{Error, bad_crc, bad_seq_no, frame_too_large, max_frame_size, read_full}
use messaging_app.Prelude.Bytes.{get_le, put_le}

pub record Full : Type 0 where
  pub recv_seq : ℕ
  pub send_seq : ℕ

abbrev pub new_full : Full
new_full = record { recv_seq = 0; send_seq = 0 }

module _ (crc32 : List ℕ → ℕ) where
  -- `(*Full).ReadFrame`: the payload, the bytes after the frame and the codec's new state.
  unfoldable pub read_frame : Full → List ℕ → Result Error (List ℕ × List ℕ × Full)
  read_frame c s = do
    (head, s1) ← read_full 8 s
    let total = get_le (take 4 head)
    let seq = get_le (drop 4 head)
    refuse (ltb total 12 || ltb max_frame_size total) frame_too_large
    refuse (not (seq == c.recv_seq)) bad_seq_no
    (body, s2) ← read_full (total - 12) s1
    (checksum, s3) ← read_full 4 s2
    refuse (not (crc32 (head ++ body) == get_le checksum)) bad_crc
    ok (body, s3, record c { recv_seq = (c.recv_seq + 1) % 2 ^ 32 })

  -- The frame that `WriteFrame` builds: header and payload, then their checksum.
  unfoldable pub frame : ℕ → List ℕ → List ℕ
  frame seq payload =
      let covered = put_le 4 (length payload + 12) ++ (put_le 4 seq ++ payload) in
      covered ++ put_le 4 (crc32 covered)

  -- `(*Full).WriteFrame`: the bytes written and the codec's new state.
  unfoldable pub write_frame : Full → List ℕ → Result Error (List ℕ × Full)
  write_frame c payload = do
    refuse (ltb max_frame_size (length payload + 12)) frame_too_large
    ok (frame c.send_seq payload, record c { send_seq = (c.send_seq + 1) % 2 ^ 32 })

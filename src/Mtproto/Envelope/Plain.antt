-- ===== src/Mtproto/Envelope/Plain.antt =====
-- The unencrypted envelope of the handshake.
use messaging_app.Prelude.{
  List, ap, arith, err, if◌then◌else◌, leb, length, length-append, ok, refl, set, take, ℕ, ◌++◌,
  ◌+◌, ◌<◌, ◌^◌, ◌≡◌, ◌≤◌,
}
use messaging_app.Mtproto.{Crypto, bad_length, unknown_auth_key}
use messaging_app.Mtproto.Envelope.{Message, decode_plain, decrypt, encode_plain, max_message_size}
use messaging_app.Mtproto.Envelope.RoundTrip.{slice_first, slice_front, slice_last, slice_skip}
use messaging_app.Mtproto.Keys.{AuthKey, Direction}
use messaging_app.Prelude.Bytes.{get_le, get_le-put_le, length-put_le, put_le, slice}

-- A plain frame with a 64-bit id is read back as it was written if its body is at most 16 MiB, and
-- a larger one of less than 4 GiB is refused.
pub decode_plain-encode_plain :
    (msg_id : ℕ) (body : List ℕ)
    → msg_id < 2 ^ 64
    → length body < 2 ^ 32
    → decode_plain (encode_plain msg_id body)
      ≡ (if leb (length body) max_message_size then ok (msg_id, body) else err bad_length)
unfolding decode_plain encode_plain
decode_plain-encode_plain msg_id body id_fits size_fits =
    let a = put_le 8 0 in
    let b = put_le 8 msg_id in
    let c = put_le 4 (length body) in
    let la = length-put_le 8 0 in
    let lb = length-put_le 8 msg_id in
    let lc = length-put_le 4 (length body) in
    let frame = a ++ (b ++ (c ++ body)) in
    let size : length frame ≡ 20 + length body = omega (
      arith,
      length-append a (b ++ (c ++ body)),
      length-append b (c ++ body),
      length-append c body,
      la,
      lb,
      lc,
    ) in
    let zeros : get_le (slice 0 8 frame) ≡ 0 =
      rw (slice_first 8 a (b ++ (c ++ body)) la) (get_le-put_le 8 0 (omega arith)) in
    let id_read : get_le (slice 8 8 frame) ≡ msg_id =
      rw (slice_front 8 8 a b la lb (c ++ body)) (get_le-put_le 8 msg_id id_fits) in
    let n_read : get_le (slice 16 4 frame) ≡ length body =
      rw (slice_skip 16 8 4 a (b ++ (c ++ body)) (ap (λ n. n + 8) la))
        (rw (slice_front 8 4 b c lb lc body) (get_le-put_le 4 (length body) size_fits)) in
    let body_read : slice 20 (length body) frame ≡ body =
      rw (slice_skip 20 12 (length body) a (b ++ (c ++ body)) (ap (λ n. n + 12) la)) (
        rw (slice_skip 12 4 (length body) b (c ++ body) (ap (λ n. n + 4) lb))
          (slice_last 4 (length body) c body lc refl)) in
    rw (zeros, id_read, n_read, body_read, size) (ground arith)

-- A frame that a key with an id other than 0 decrypts is never taken for a plain one.
pub decode_plain_of_encrypted :
    (crypto : Crypto) (k : AuthKey) (frame : List ℕ) (d : Direction) (m : Message)
    → 0 < k.id
    → decrypt crypto k frame d ≡ ok m
    → decode_plain frame ≡ err unknown_auth_key
unfolding decode_plain decrypt slice
decode_plain_of_encrypted crypto k frame d m set accepted =
    let long : 64 ≤ length frame = ground arith in
    let id : get_le (take 8 frame) ≡ k.id = ground arith in ground arith

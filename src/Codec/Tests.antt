-- ===== src/Codec/Tests.antt =====
-- The codec on small inputs.
use messaging_app.Codec.Full
use messaging_app.Codec.Stream
use messaging_app.Prelude.{
  List, [], arith, drop, ok, refl, replicate, ℕ, ◌%◌, ◌++◌, ◌+◌, ◌<◌, ◌^◌, ◌∷◌, ◌≡◌, ◌≤◌,
}
use messaging_app.Codec.{max_frame_size, read_full}
use messaging_app.Codec.Detect.{abridged, detect, full, magic, padded}
use messaging_app.Codec.Detect.Magic.{detect-frame, detect-magic}
use messaging_app.Codec.Full.{Full, new_full}
use messaging_app.Codec.Full.Sound.{accepts_only_frames}
use messaging_app.Codec.Stream.{read_many}
use messaging_app.Codec.Stream.RoundTrip.{read_many-write_all}
use messaging_app.Prelude.Bytes.{all_bytes_sound, get_le, put_le}

-- A checksum to try the full framing with.
abbrev checksum : List ℕ → ℕ
checksum bs = get_le bs % 2 ^ 32

checksum_bound : (bs : List ℕ) → checksum bs < 2 ^ 32
checksum_bound bs = omega arith

abbrev two_payloads : List (List ℕ × List ℕ)
two_payloads = ([], 1 ∷ 2 ∷ []) ∷ ([], 3 ∷ []) ∷ []

abbrev two_frames : List ℕ
two_frames = Full.frame checksum 0 (1 ∷ 2 ∷ []) ++ (Full.frame checksum 1 (3 ∷ []) ++ [])

read_many-write_all_example :
    read_many checksum 2 (full new_full) (two_frames ++ 7 ∷ []) ≡ ok ((1 ∷ 2 ∷ []) ∷ (3 ∷ []) ∷ [])
unfolding Stream.write_all Stream.write_frame Full.write_frame Full.frame
read_many-write_all_example =
    read_many-write_all checksum checksum_bound (full new_full) (full new_full) two_payloads
      two_frames (7 ∷ []) (refl, omega arith) (tt, (tt, tt)) refl

-- A frame of two bytes at number 0.
abbrev one_frame : List ℕ
one_frame = Full.frame checksum 0 (1 ∷ 2 ∷ [])

accepts_only_frames_example :
    (one_frame ++ 9 ∷ [] ≡ Full.frame checksum 0 (1 ∷ 2 ∷ []) ++ 9 ∷ [])
    × (2 + 12 ≤ max_frame_size)
    × (record { recv_seq = 1; send_seq = 0 } ≡ record new_full { recv_seq = (0 + 1) % 2 ^ 32 })
unfolding Full.frame Full.read_frame read_full put_le get_le
accepts_only_frames_example =
    accepts_only_frames checksum new_full (record { recv_seq = 1; send_seq = 0 })
      (one_frame ++ 9 ∷ []) (1 ∷ 2 ∷ []) (9 ∷ []) (all_bytes_sound (one_frame ++ 9 ∷ []) refl) refl

padded_detected : detect (magic padded ++ 5 ∷ []) ≡ ok (padded, 5 ∷ [])
padded_detected = detect-magic padded (5 ∷ []) tt

detect-frame_example :
    detect (Full.frame checksum 0 (replicate 227 1) ++ [])
    ≡ ok (abridged, drop 1 (Full.frame checksum 0 (replicate 227 1) ++ []))
detect-frame_example = detect-frame checksum 0 (replicate 227 1) [] (omega arith)

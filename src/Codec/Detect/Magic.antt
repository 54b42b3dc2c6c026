-- ===== src/Codec/Detect/Magic.antt =====
-- What `Detect` makes of the first bytes that a client sends.
use messaging_app.Prelude.{
  List, arith, drop, if◌then◌else◌, length, ok, refl, ℕ, ◌%◌, ◌++◌, ◌+◌, ◌==◌, ◌≡◌, ◌≤◌,
}
use messaging_app.Codec.{max_frame_size}
use messaging_app.Codec.Detect.{Framing, abridged, detect, full, intermediate, magic, padded}
use messaging_app.Codec.Full.{frame, new_full}
use messaging_app.Prelude.Bytes.{get_le, put_le}

-- The framings that announce themselves by a prefix.
abbrev pub HasMagic : Framing → Type 0
HasMagic (full c) = ⊥
HasMagic _ = Unit {0}

-- The prefix of each of the three framings that announce themselves selects that framing, and
-- leaves what follows the prefix.
pub detect-magic : (f : Framing) (s : List ℕ) → HasMagic f → detect (magic f ++ s) ≡ ok (f, s)
unfolding detect magic put_le get_le
detect-magic abridged s h = refl
detect-magic intermediate s h = ground arith
detect-magic padded s h = ground arith
detect-magic (full c) s h = absurd h

-- The first frame of a full writer, within the limit, is taken for full framing and left in place,
-- unless the low byte of its length is 0xef: then the connection is taken for an abridged one, and
-- that byte is gone.
pub detect-frame :
    (crc32 : List ℕ → ℕ) (seq : ℕ) (p rest : List ℕ)
    → length p + 12 ≤ max_frame_size
    → detect (frame crc32 seq p ++ rest) ≡ (
        if (length p + 12) % 256 == 0xef
        then ok (abridged, drop 1 (frame crc32 seq p ++ rest))
        else ok (full new_full, frame crc32 seq p ++ rest))
unfolding detect frame put_le get_le
detect-frame crc32 seq p rest h = ground arith

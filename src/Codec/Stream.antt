-- ===== src/Codec/Stream.antt =====
-- The `Codec` interface over a connection: what one side writes the other side reads.
pub mod RoundTrip
use messaging_app.Codec.Abridged
use messaging_app.Codec.Intermediate
use messaging_app.Codec.Padded
use messaging_app.Codec.Full
use messaging_app.Prelude.{List, Result, [], ok, suc, zero, ℕ, ◌++◌, ◌>>=◌, ◌>>◌, ◌∷◌}
use messaging_app.Codec.{Error}
use messaging_app.Codec.Detect.{Framing, abridged, full, intermediate, padded}
use messaging_app.Codec.Full.{Full}

module _ (crc32 : List ℕ → ℕ) where
  -- `Codec.ReadFrame` by the implementation at hand.
  unfoldable pub read_frame : Framing → List ℕ → Result Error (List ℕ × List ℕ × Framing)
  read_frame abridged s = do (p, rest) ← Abridged.read_frame s; ok (p, rest, abridged)
  read_frame intermediate s = do (p, rest) ← Intermediate.read_frame s; ok (p, rest, intermediate)
  read_frame padded s = do (p, rest) ← Padded.read_frame s; ok (p, rest, padded)
  read_frame (full c) s = do (p, rest, c') ← Full.read_frame crc32 c s; ok (p, rest, full c')

  -- `Codec.WriteFrame` by the implementation at hand; `noise` is what a padded frame draws.
  unfoldable pub write_frame : Framing → List ℕ → List ℕ → Result Error (List ℕ × Framing)
  write_frame abridged noise p = do bytes ← Abridged.write_frame p; ok (bytes, abridged)
  write_frame intermediate noise p = do bytes ← Intermediate.write_frame p; ok (bytes, intermediate)
  write_frame padded noise p = do bytes ← Padded.write_frame noise p; ok (bytes, padded)
  write_frame (full c) noise p = do (bytes, c') ← Full.write_frame crc32 c p; ok (bytes, full c')

  -- A writer that sends payloads one after the other, each with the random bytes drawn for it.
  unfoldable pub write_all : Framing → List (List ℕ × List ℕ) → Result Error (List ℕ)
  write_all f [] = ok []
  write_all f ((noise, p) ∷ rest) = do
    (bytes, f') ← write_frame f noise p
    more ← write_all f' rest
    ok (bytes ++ more)

  -- A reader that takes `n` frames from the connection.
  unfoldable pub read_many : ℕ → Framing → List ℕ → Result Error (List (List ℕ))
  read_many zero f s = ok []
  read_many (suc n) f s = do
    (p, rest, f') ← read_frame f s
    more ← read_many n f' rest
    ok (p ∷ more)

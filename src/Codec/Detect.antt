-- ===== src/Codec/Detect.antt =====
-- `Codec`, `Detect`, `ByName` and `WriteMagic` of pkg/mtproto/codec/codec.go.
pub mod Magic
use Prim.Native.String.{String}
use messaging_app.Prelude.{
  List, Result, [], drop, err, if◌then◌else◌, length, ltb, ok, take, ℕ, ◌==◌, ◌||◌, ◌∷◌,
}
use messaging_app.Codec.{Error, Read, eof, unknown_magic}
use messaging_app.Codec.Full.{Full, new_full}
use messaging_app.Prelude.Bytes.{get_le, put_le}
use text.Mathlib.Text.{◌==◌ as str_eq}

-- The implementations of the `Codec` interface, with the state that each one keeps.
pub data Framing : Type 0 where
  abridged intermediate padded : Framing
  full : Full → Framing

-- The prefix that is not recognised stands for full framing, and stays in the input.
by_magic : List ℕ → Read Framing
by_magic s =
    let head = get_le (take 4 s) in
    if head == 0xeeeeeeee
    then ok (intermediate, drop 4 s)
    else if head == 0xdddddddd
    then ok (padded, drop 4 s)
    else ok (full new_full, s)

-- `Detect`. `Peek(4)` fails on an input that ends before its fourth byte.
unfoldable pub detect : List ℕ → Read Framing
unfolding by_magic
detect [] = err eof
detect (b ∷ s) =
    if b == 0xef
    then ok (abridged, s)
    else if ltb (length (b ∷ s)) 4
    then err eof
    else by_magic (b ∷ s)

-- `ByName`
unfoldable pub by_name : String → Result Error Framing
by_name name =
    if str_eq name "abridged"
    then ok abridged
    else if str_eq name "intermediate"
    then ok intermediate
    else if str_eq name "padded" || str_eq name "padded_intermediate"
    then ok padded
    else if str_eq name "full"
    then ok (full new_full)
    else err unknown_magic

-- `Name` of each implementation.
unfoldable pub name : Framing → String
name abridged = "abridged"
name intermediate = "intermediate"
name padded = "padded_intermediate"
name (full c) = "full"

-- `WriteMagic`: the prefix that a client sends first.
unfoldable pub magic : Framing → List ℕ
magic abridged = 0xef ∷ []
magic intermediate = put_le 4 0xeeeeeeee
magic padded = put_le 4 0xdddddddd
magic (full c) = []

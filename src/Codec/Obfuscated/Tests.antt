-- ===== src/Codec/Obfuscated/Tests.antt =====
-- A client and a server of the obfuscated transport on small inputs.
use messaging_app.Prelude.{
  List, [], arith, length, length-replicate, ok, refl, replicate, suc, take, zero, ℕ, ◌%◌, ◌*◌,
  ◌++◌, ◌+◌, ◌∷◌, ◌≡◌,
}
use messaging_app.Codec.Detect.{abridged, detect, full, intermediate}
use messaging_app.Codec.Full.{new_full}
use messaging_app.Codec.Obfuscated.{
  CtrStream, Keystream, ObfuscatedConn, accept_obfuscated, dial_obfuscated, is_disguise, write,
  xor_from, xor_key_stream,
}
use messaging_app.Codec.Obfuscated.Accepted.{accept_obfuscated-dial_obfuscated}
use messaging_app.Codec.Obfuscated.Stream.{read_each, read_each-write_each, write_each}
use messaging_app.Prelude.Bits.{xor_bits}
use messaging_app.Prelude.Bytes.{all_bytes_sound, get_le, slice}

-- A keystream to try the transport with.
abbrev stream : Keystream
stream key iv i = (get_le (take 1 key) + i * 7 + 3) % 256

-- The first draw looks like abridged framing, the second like none.
abbrev draws : ℕ → List ℕ
draws zero = replicate 56 0xef
draws (suc j) = replicate 56 9

length-draws : (j : ℕ) → length (draws j) ≡ 56
length-draws zero = length-replicate {A = ℕ} 56 0xef
length-draws (suc j) = length-replicate {A = ℕ} 56 9

accept_obfuscated-dial_obfuscated_example :
    (wire : List ℕ) × (c : ObfuscatedConn) × (dial_obfuscated stream
        (λ j. ok (draws j))
        (ok (1 ∷ 2 ∷ []))
        intermediate
        2
      ≡ ok (wire, c))
    × (c.framing ≡ intermediate)
    × (c.dc_id ≡ 2)
    × (accept_obfuscated stream (wire ++ 7 ∷ [])
        ≡ ok (record c { enc = c.dec; dec = c.enc }, 7 ∷ []))
    × (detect (wire ++ 7 ∷ []) ≡ ok (full new_full, wire ++ 7 ∷ []))
unfolding is_disguise slice get_le
accept_obfuscated-dial_obfuscated_example =
    accept_obfuscated-dial_obfuscated stream draws 1 (1 ∷ 2 ∷ []) intermediate 2 length-draws
      (omega arith) refl (record { size = refl; bytes = all_bytes_sound (1 ∷ 2 ∷ []) refl }) tt
      (omega arith) (7 ∷ [])

abbrev at_start : CtrStream
at_start = record { key = 5 ∷ []; iv = []; pos = 64 }

abbrev one_end : ObfuscatedConn
one_end = record { enc = at_start; dec = at_start; framing = abridged; dc_id = 2 }

-- Two writes, whose bytes arrive in two other parts.
read_each-write_each_example :
    (read_each stream one_end ((202 ∷ []) ∷ (204 ∷ 210 ∷ []) ∷ [])).0 ≡ 2 ∷ 3 ∷ 4 ∷ []
unfolding write_each write xor_key_stream xor_from xor_bits get_le
read_each-write_each_example =
    read_each-write_each stream one_end one_end ((2 ∷ 3 ∷ []) ∷ (4 ∷ []) ∷ [])
      ((202 ∷ []) ∷ (204 ∷ 210 ∷ []) ∷ []) refl (all_bytes_sound (2 ∷ 3 ∷ 4 ∷ []) refl) refl

-- ===== src/Codec/Obfuscated/Stream.antt =====
-- The two streams of an obfuscated connection, over many writes and reads.
use messaging_app.Prelude.{List, [], ap, arith, length, refl, suc, sym, ℕ, ◌++◌, ◌+◌, ◌∷◌, ◌≡◌}
use messaging_app.Codec.Obfuscated.{
  Keystream, ObfuscatedConn, read, write, xor_from, xor_key_stream,
}
use messaging_app.Prelude.Bits.{xor_bits_cancel}
use messaging_app.Prelude.Bytes.{All, IsByte}

abbrev pub joined : List (List ℕ) → List ℕ
joined [] = []
joined (p ∷ ps) = p ++ joined ps

-- Writes, one after the other: the bytes that go to the connection.
unfoldable pub write_each : Keystream → ObfuscatedConn → List (List ℕ) → List ℕ × ObfuscatedConn
write_each ks o [] = ([], o)
write_each ks o (p ∷ ps) =
    let w = write ks o p in let ws = write_each ks w.1 ps in (w.0 ++ ws.0, ws.1)

-- Reads, one after the other, of the parts in which the bytes arrive.
unfoldable pub read_each : Keystream → ObfuscatedConn → List (List ℕ) → List ℕ × ObfuscatedConn
read_each ks o [] = ([], o)
read_each ks o (q ∷ qs) = let r = read ks o q in let rs = read_each ks r.1 qs in (r.0 ++ rs.0, rs.1)

pub length-xor_from : (k : ℕ → ℕ) (i : ℕ) (xs : List ℕ) → length (xor_from k i xs) ≡ length xs
unfolding xor_from
length-xor_from k i [] = refl
length-xor_from k i (x ∷ xs) = ap suc (length-xor_from k (suc i) xs)

pub xor_from-append :
    (k : ℕ → ℕ) (i : ℕ) (xs ys : List ℕ)
    → xor_from k i (xs ++ ys) ≡ xor_from k i xs ++ xor_from k (i + length xs) ys
unfolding xor_from
xor_from-append k i [] ys = let here : i + 0 ≡ i = omega arith in rw here refl
xor_from-append k i (x ∷ xs) ys =
    let next : i + suc (length xs) ≡ suc i + length xs = omega arith in
    rw (xor_from-append k (suc i) xs ys, next) refl

-- The same stream at the same position takes its own bytes off again.
pub xor_from_twice :
    (k : ℕ → ℕ) (i : ℕ) (xs : List ℕ) → All IsByte xs → xor_from k i (xor_from k i xs) ≡ xs
unfolding xor_from
xor_from_twice k i [] h = refl
xor_from_twice k i (x ∷ xs) h =
    rw (xor_bits_cancel 8 x (k i) h.0) (ap (λ l. x ∷ l) (xor_from_twice k (suc i) xs h.1))

write_each-joined :
    (ks : Keystream) (o : ObfuscatedConn) (ps : List (List ℕ))
    → (write_each ks o ps).0 ≡ xor_from (ks o.enc.key o.enc.iv) o.enc.pos (joined ps)
unfolding write_each write xor_key_stream xor_from
write_each-joined ks o [] = refl
write_each-joined ks o (p ∷ ps) =
    rw (write_each-joined ks (write ks o p).1 ps)
      (sym (xor_from-append (ks o.enc.key o.enc.iv) o.enc.pos p (joined ps)))

read_each-joined :
    (ks : Keystream) (o : ObfuscatedConn) (qs : List (List ℕ))
    → (read_each ks o qs).0 ≡ xor_from (ks o.dec.key o.dec.iv) o.dec.pos (joined qs)
unfolding read_each read xor_key_stream xor_from
read_each-joined ks o [] = refl
read_each-joined ks o (q ∷ qs) =
    rw (read_each-joined ks (read ks o q).1 qs)
      (sym (xor_from-append (ks o.dec.key o.dec.iv) o.dec.pos q (joined qs)))

-- Two ends whose streams agree: what one end writes, in any writes, is what the other end reads, in
-- whatever parts the bytes arrive.
pub read_each-write_each :
    (ks : Keystream) (a b : ObfuscatedConn) (ps qs : List (List ℕ))
    → a.enc ≡ b.dec
    → All IsByte (joined ps)
    → joined qs ≡ (write_each ks a ps).0
    → (read_each ks b qs).0 ≡ joined ps
read_each-write_each ks a b ps qs same bytes arrived =
    rw (read_each-joined ks b qs, arrived, write_each-joined ks a ps, ← same)
      (xor_from_twice (ks a.enc.key a.enc.iv) a.enc.pos (joined ps) bytes)

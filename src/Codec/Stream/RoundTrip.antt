-- ===== src/Codec/Stream/RoundTrip.antt =====
-- Every framing delivers the payloads of a connection, in order.
use messaging_app.Codec.Abridged
use messaging_app.Codec.Intermediate
use messaging_app.Codec.Padded
use messaging_app.Codec.Full
use messaging_app.Prelude.{
  List, Result-cases, [], append_assoc, arith, inl, inr, length, ok, refl, subst, ℕ, ◌++◌, ◌<◌, ◌^◌,
  ◌∷◌, ◌≡◌, ◌≤◌,
}
use messaging_app.Codec.Detect.{Framing, abridged, full, intermediate, padded}
use messaging_app.Codec.Full.{Full}
use messaging_app.Codec.Stream.{read_frame, read_many, write_all, write_frame}
use messaging_app.Prelude.Bytes.{All}

-- What a reader gets of a payload: abridged framing pads it to whole words.
abbrev pub delivered : Framing → List ℕ → List ℕ
delivered abridged p = Abridged.pad_to_4 p
delivered intermediate p = p
delivered padded p = p
delivered (full c) p = p

-- The same framing at both ends; for full framing, the reader expects the writer's number.
abbrev pub Agree : Framing → Framing → Type 0
Agree abridged abridged = Unit {0}
Agree intermediate intermediate = Unit {0}
Agree padded padded = Unit {0}
Agree (full r) (full w) = (r.recv_seq ≡ w.send_seq) × (w.send_seq < 2 ^ 32)
Agree _ _ = ⊥

-- Payloads that the framing can carry: not empty, or with 1 to 16 random bytes behind them.
abbrev pub Sendable : Framing → List ℕ → List ℕ → Type 0
Sendable abridged noise p = 0 < length p
Sendable intermediate noise p = 0 < length p
Sendable padded noise p = (0 < length noise) × (length noise ≤ 16)
Sendable (full c) noise p = Unit {0}

module _ (crc32 : List ℕ → ℕ) (crc_bound : (bs : List ℕ) → crc32 bs < 2 ^ 32) where
  -- One frame: the reader takes back what was written and stays in step with the writer.
  record Delivered (r w w' : Framing) (p bytes rest : List ℕ) : Type 0 where
    r' : Framing
    reads : read_frame crc32 r (bytes ++ rest) ≡ ok (delivered r p, rest, r')
    agree : Agree r' w'
    same : (q : List ℕ) → delivered r' q ≡ delivered r q
    keeps : (n q : List ℕ) → Sendable w n q → Sendable w' n q

  full_bound :
      (w w' : Full) (p bytes : List ℕ)
      → Full.write_frame crc32 w p ≡ ok (bytes, w')
      → w'.send_seq < 2 ^ 32
  unfolding Full.write_frame
  full_bound w w' p bytes e = ground arith

  full_Delivered :
      (r w : Full) (w' : Framing) (p bytes rest : List ℕ)
      → r.recv_seq ≡ w.send_seq
      → w.send_seq < 2 ^ 32
      → write_frame crc32 (full w) [] p ≡ ok (bytes, w')
      → Delivered (full r) (full w) w' p bytes rest
  unfolding read_frame write_frame
  full_Delivered r w w' p bytes rest same small e =
      elim (Result-cases (Full.write_frame crc32 w p)) [
        | inl (x, fails) ↦ ground arith
        | inr ((b, c'), wrote) ↦
            let kept : full c' ≡ w' = ground arith in
            let b-bytes : b ≡ bytes = ground arith in
            record {
              r' = full (record r { recv_seq = c'.send_seq });
              reads =
                  rw
                    (
                      ← b-bytes,
                      Full.RoundTrip.read_written crc32 crc_bound r w c' p rest b same small wrote,
                    )
                    refl;
              agree =
                  subst (Agree (full (record r { recv_seq = c'.send_seq }))) kept
                    (refl, full_bound w c' p b wrote);
              same = λ q. refl;
              keeps = λ n q h. subst (λ f. Sendable f n q) kept h;
            }
      ]

  frame-Delivered :
      (r w w' : Framing) (noise p bytes rest : List ℕ)
      → Agree r w
      → Sendable w noise p
      → write_frame crc32 w noise p ≡ ok (bytes, w')
      → Delivered r w w' p bytes rest
  unfolding read_frame write_frame
  frame-Delivered abridged abridged w' noise p bytes rest a s e =
      let wrote : Abridged.write_frame p ≡ ok bytes = ground arith in
      let kept : abridged ≡ w' = ground arith in
      record {
        r' = abridged;
        reads = rw (Abridged.read_written p rest bytes s wrote) refl;
        agree = subst (Agree abridged) kept tt;
        same = λ q. refl;
        keeps = λ n q h. subst (λ f. Sendable f n q) kept h;
      }
  frame-Delivered intermediate intermediate w' noise p bytes rest a s e =
      let wrote : Intermediate.write_frame p ≡ ok bytes = ground arith in
      let kept : intermediate ≡ w' = ground arith in
      record {
        r' = intermediate;
        reads = rw (Intermediate.read_written p rest bytes s wrote) refl;
        agree = subst (Agree intermediate) kept tt;
        same = λ q. refl;
        keeps = λ n q h. subst (λ f. Sendable f n q) kept h;
      }
  frame-Delivered padded padded w' noise p bytes rest a s e =
      let wrote : Padded.write_frame noise p ≡ ok bytes = ground arith in
      let kept : padded ≡ w' = ground arith in
      record {
        r' = padded;
        reads = rw (Padded.read_written noise p rest bytes s.0 s.1 wrote) refl;
        agree = subst (Agree padded) kept tt;
        same = λ q. refl;
        keeps = λ n q h. subst (λ f. Sendable f n q) kept h;
      }
  frame-Delivered (full r) (full w) w' noise p bytes rest a s e =
      full_Delivered r w w' p bytes rest a.0 a.1 e
  frame-Delivered _ _ w' noise p bytes rest a s e = absurd a

  -- Every payload list of the writer, in order and as the framing delivers it.
  abbrev payloads : Framing → List (List ℕ × List ℕ) → List (List ℕ)
  payloads r [] = []
  payloads r ((noise, p) ∷ rest) = delivered r p ∷ payloads r rest

  payloads_same :
      (r r' : Framing) (ps : List (List ℕ × List ℕ))
      → ((q : List ℕ) → delivered r' q ≡ delivered r q)
      → payloads r' ps ≡ payloads r ps
  payloads_same r r' [] same = refl
  payloads_same r r' ((noise, p) ∷ ps) same = rw (same p, payloads_same r r' ps same)

  All-map :
      (w w' : Framing) (ps : List (List ℕ × List ℕ))
      → ((n q : List ℕ) → Sendable w n q → Sendable w' n q)
      → All (λ q. Sendable w q.0 q.1) ps
      → All (λ q. Sendable w' q.0 q.1) ps
  All-map w w' [] f h = tt
  All-map w w' (q ∷ ps) f h = (f q.0 q.1 h.0, All-map w w' ps f h.1)

  -- If a writer writes payloads that its framing can carry, and a reader of the same framing is in
  -- step with it, the reader gets every payload as the framing delivers it, in order, whatever
  -- follows them. The checksum has 32 bits.
  pub read_many-write_all :
      (r w : Framing) (ps : List (List ℕ × List ℕ)) (bytes rest : List ℕ)
      → Agree r w
      → All (λ q. Sendable w q.0 q.1) ps
      → write_all crc32 w ps ≡ ok bytes
      → read_many crc32 (length ps) r (bytes ++ rest) ≡ ok (payloads r ps)
  unfolding write_all read_many
  read_many-write_all r w [] bytes rest a s e = refl
  read_many-write_all r w ((noise, p) ∷ ps) bytes rest a s e =
      elim (Result-cases (write_frame crc32 w noise p)) [
        | inl (x, fails) ↦ ground arith
        | inr ((b, w'), wrote) ↦ elim (Result-cases (write_all crc32 w' ps)) [
          | inl (x, fails) ↦ ground arith
          | inr (more, wrote_more) ↦
              let d = frame-Delivered r w w' noise p b (more ++ rest) a s.0 wrote in
              let joined : b ++ more ≡ bytes = ground arith in
              let next =
                read_many-write_all d.r' w' ps more rest d.agree (All-map w w' ps d.keeps s.1)
                  wrote_more in
              rw (← joined, append_assoc, d.reads, next, payloads_same r d.r' ps d.same) refl
        ]
      ]

-- ===== src/Udp/Reassembly/Chunks.antt =====
-- The fragments of a frame, put together again.
use native.Mathlib.Nat.{suc-add, zero-add}
use messaging_app.Prelude.{
  Bool-cases, List, Option, [], arith, drop, get_elem?, inl, inr, length, length-append,
  length-drop, length-take, min, none, refl, replicate, set, some, suc, sym, take-append-drop, zero,
  ℕ, ◌*◌, ◌+◌, ◌-◌, ◌<◌, ◌∷◌, ◌≡◌, ◌≤◌,
}
use messaging_app.Udp.{max_payload}
use messaging_app.Udp.Reassembly.{Partial, chunk, fill, fragment_count, is_missing, join}
use messaging_app.Udp.Reassembly.Slots.{count_some, count_some-le}

-- A slot is empty or holds the fragment of its place.
abbrev pub Holds : List ℕ → ℕ → List (Option (List ℕ)) → Type 0
Holds frame i [] = Unit {0}
Holds frame i (none ∷ fs) = Holds frame (i + 1) fs
Holds frame i (some f ∷ fs) = (f ≡ chunk frame i) × Holds frame (i + 1) fs

-- The fragments from the i-th on, all of them there.
abbrev all_from : List ℕ → ℕ → ℕ → List (Option (List ℕ))
all_from frame i zero = []
all_from frame i (suc n) = some (chunk frame i) ∷ all_from frame (i + 1) n

drop-drop : (m n : ℕ) (xs : List ℕ) → drop m (drop n xs) ≡ drop (n + m) xs
drop-drop m zero xs = rw zero-add
drop-drop m (suc n) [] = rw suc-add (drop-nil m)
  where
    drop-nil : (m : ℕ) → drop {A = ℕ} m [] ≡ []
    drop-nil zero = refl
    drop-nil (suc m) = refl
drop-drop m (suc n) (x ∷ xs) = rw suc-add (drop-drop m n xs)

drop-all : (n : ℕ) (xs : List ℕ) → length xs ≤ n → drop n xs ≡ []
drop-all zero [] h = refl
drop-all zero (x ∷ xs) h = absurd (omega arith)
drop-all (suc n) [] h = refl
drop-all (suc n) (x ∷ xs) h = drop-all n xs (omega arith)

-- All fragments from the i-th on are the rest of the frame from there.
join-all_from :
    (frame : List ℕ) (i n : ℕ)
    → length frame ≤ (i + n) * max_payload
    → join (all_from frame i n) ≡ drop (i * max_payload) frame
unfolding join chunk
join-all_from frame i zero h = sym (drop-all (i * max_payload) frame (omega arith))
join-all_from frame i (suc n) h =
    let next : (i + 1) * max_payload ≡ i * max_payload + max_payload = omega arith in
    rw
      (
        join-all_from frame (i + 1) n (omega arith),
        next,
        ← (drop-drop max_payload (i * max_payload) frame),
      )
      (take-append-drop max_payload (drop (i * max_payload) frame))

-- Slots that hold fragments of their places, and are all filled, are the fragments.
filled :
    (frame : List ℕ) (fs : List (Option (List ℕ))) (i : ℕ)
    → Holds frame i fs
    → count_some fs ≡ length fs
    → fs ≡ all_from frame i (length fs)
unfolding count_some
filled frame [] i h c = refl
filled frame (none ∷ fs) i h c = absurd (omega (arith, count_some-le fs))
filled frame (some f ∷ fs) i h c = cc (h.0, filled frame fs (i + 1) h.1 (omega arith))

-- Slots for all fragments of a frame that are all filled give the frame.
pub join-filled :
    (frame : List ℕ) (fs : List (Option (List ℕ)))
    → Holds frame 0 fs
    → count_some fs ≡ length fs
    → length frame ≤ length fs * max_payload
    → join fs ≡ frame
join-filled frame fs h c l =
    rw (filled frame fs 0 h c) (join-all_from frame 0 (length fs) (rw zero-add l))

pub Holds-replicate : (frame : List ℕ) (n i : ℕ) → Holds frame i (replicate n none)
Holds-replicate frame zero i = tt
Holds-replicate frame (suc n) i = Holds-replicate frame n (i + 1)

-- A slot `k` places on takes the fragment of its place.
Holds-set :
    (frame : List ℕ) (fs : List (Option (List ℕ))) (i k j : ℕ)
    → i + k ≡ j
    → Holds frame i fs
    → Holds frame i (set fs k (some (chunk frame j)))
Holds-set frame [] i k j e h = tt
Holds-set frame (none ∷ fs) i zero j e h = let same : i ≡ j = omega arith in (rw same, h)
Holds-set frame (some f ∷ fs) i zero j e h = let same : i ≡ j = omega arith in (rw same, h.1)
Holds-set frame (none ∷ fs) i (suc k) j e h = Holds-set frame fs (i + 1) k j (omega arith) h
Holds-set frame (some f ∷ fs) i (suc k) j e h =
    (h.0, Holds-set frame fs (i + 1) k j (omega arith) h.1)

pub fill-Holds :
    (frame : List ℕ) (i : ℕ) (p : Partial)
    → Holds frame 0 p.fragments
    → Holds frame 0 (fill i (chunk frame i) p).fragments
unfolding fill
fill-Holds frame i p h = elim (Bool-cases (is_missing (get_elem? p.fragments i))) [
  | inl open_slot ↦ rw open_slot (Holds-set frame p.fragments 0 i i (omega arith) h)
  | inr taken ↦ rw taken h
]

length-chunk :
    (frame : List ℕ) (i : ℕ)
    → length (chunk frame i) ≡ min max_payload (length frame - i * max_payload)
unfolding chunk
length-chunk frame i = omega (
  arith,
  length-take max_payload (drop (i * max_payload) frame),
  length-drop (i * max_payload) frame,
)

-- What has come of a frame is no longer than what it has from there on.
length-join-Holds :
    (frame : List ℕ) (fs : List (Option (List ℕ))) (i : ℕ)
    → Holds frame i fs
    → length (join fs) ≤ length frame - i * max_payload
unfolding join
length-join-Holds frame [] i h = omega arith
length-join-Holds frame (none ∷ fs) i h = omega (arith, length-join-Holds frame fs (i + 1) h)
length-join-Holds frame (some f ∷ fs) i h = rw h.0 (
    omega (
      arith,
      length-append (chunk frame i) (join fs),
      length-chunk frame i,
      length-join-Holds frame fs (i + 1) h.1,
    ))

pub join-Holds-le :
    (frame : List ℕ) (fs : List (Option (List ℕ)))
    → Holds frame 0 fs
    → length (join fs) ≤ length frame
join-Holds-le frame fs h = omega (arith, length-join-Holds frame fs 0 h)

-- The fragments that are counted cover the frame.
pub fragment_count_covers :
    (frame : List ℕ)
    → (length frame ≤ fragment_count frame * max_payload) × (0 < fragment_count frame)
unfolding fragment_count
fragment_count_covers frame = ground arith

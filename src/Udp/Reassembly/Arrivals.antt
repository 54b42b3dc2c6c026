-- ===== src/Udp/Reassembly/Arrivals.antt =====
-- Arrivals of fragments and sweeps, as sequences of events.
use messaging_app.Prelude.{
  Bool-cases, List, Option, [], arith, false, get_elem?, get_elem?-set_ne, inl, inr, ltb, none,
  refl, replicate, set, some, suc, zero, ℕ, ◌+◌, ◌-◌, ◌<◌, ◌==◌, ◌∙◌, ◌∷◌, ◌≡◌, ◌≢◌, ◌≤◌, ◌⊎◌,
}
use messaging_app.Prelude.Assoc.{lookup}
use messaging_app.Udp.Reassembly.{Partial, fill, reassembly_ttl, sweep_partials}
use messaging_app.Udp.Reassembly.AnyOrder.{Event, arrive, sweep}

-- The number of arrivals among the events.
unfoldable pub count_arrivals : List Event → ℕ
count_arrivals [] = 0
count_arrivals (arrive now i ∷ es) = suc (count_arrivals es)
count_arrivals (sweep now ∷ es) = count_arrivals es

-- Fragment `i` is not among the arrivals.
abbrev pub Absent : ℕ → List Event → Type 0
Absent i [] = Unit {0}
Absent i (arrive now j ∷ es) = (i ≢ j) × Absent i es
Absent i (sweep now ∷ es) = Absent i es

-- Every arrival is of a fragment below `n`, and none comes twice.
abbrev pub Distinct : ℕ → List Event → Type 0
Distinct n [] = Unit {0}
Distinct n (arrive now i ∷ es) = (i < n) × Absent i es × Distinct n es
Distinct n (sweep now ∷ es) = Distinct n es

-- No fragment arrives before `start`, and no sweep that has arrivals after it comes more than
-- `udpReassemblyTTL` after `start`.
abbrev pub InTime : ℕ → List Event → Type 0
InTime start [] = Unit {0}
InTime start (arrive now i ∷ es) = (start ≤ now) × InTime start es
InTime start (sweep now ∷ es) =
    ((now ≤ start + reassembly_ttl) ⊎ (count_arrivals es ≡ 0)) × InTime start es

-- The arrivals are of empty slots.
abbrev pub Awaited : List (Option (List ℕ)) → List Event → Type 0
Awaited fs [] = Unit {0}
Awaited fs (arrive now i ∷ es) = (get_elem? fs i ≡ some none) × Awaited fs es
Awaited fs (sweep now ∷ es) = Awaited fs es

pub Awaited-set :
    (fs : List (Option (List ℕ))) (i : ℕ) (f : List ℕ) (es : List Event)
    → Absent i es
    → Awaited fs es
    → Awaited (set fs i (some f)) es
Awaited-set fs i f [] a w = tt
Awaited-set fs i f (arrive now j ∷ es) a w =
    (get_elem?-set_ne fs (some f) a.0 ∙ w.0, Awaited-set fs i f es a.1 w.1)
Awaited-set fs i f (sweep now ∷ es) a w = Awaited-set fs i f es a w

get_elem?-replicate :
    (n i : ℕ) → i < n → get_elem? (replicate {A = Option (List ℕ)} n none) i ≡ some none
get_elem?-replicate zero i h = elim h [ ]
get_elem?-replicate (suc n) zero h = refl
get_elem?-replicate (suc n) (suc i) h = get_elem?-replicate n i (omega arith)

pub Awaited-replicate : (n : ℕ) (es : List Event) → Distinct n es → Awaited (replicate n none) es
Awaited-replicate n [] d = tt
Awaited-replicate n (arrive now i ∷ es) d =
    (get_elem?-replicate n i d.0, Awaited-replicate n es d.2)
Awaited-replicate n (sweep now ∷ es) d = Awaited-replicate n es d

-- A sweep leaves an entry that is young enough, and makes none.
pub lookup-sweep_young :
    (now seq : ℕ) (p : Partial) (table : List (ℕ × Partial))
    → now ≤ p.started + reassembly_ttl
    → lookup seq table ≡ some p
    → lookup seq (sweep_partials now table) ≡ some p
unfolding sweep_partials lookup
lookup-sweep_young now seq p [] h e = cc
lookup-sweep_young now seq p ((k, q) ∷ table) h e = elim (Bool-cases (k == seq)) [
  | inl same ↦
      let here : q ≡ p = ground arith in
      let young : ltb reassembly_ttl (now - q.started) ≡ false = rw here (ground arith) in
      rw (young, lookup) (rw (same, here) refl)
  | inr other ↦
      let rest = lookup-sweep_young now seq p table h (ground arith) in
      elim (Bool-cases (ltb reassembly_ttl (now - q.started))) [
        | inl old ↦ rw old rest
        | inr young ↦ rw (young, lookup) (rw other rest)
      ]
]

pub lookup-sweep_absent :
    (now seq : ℕ) (table : List (ℕ × Partial))
    → lookup seq table ≡ none
    → lookup seq (sweep_partials now table) ≡ none
unfolding sweep_partials lookup
lookup-sweep_absent now seq [] e = refl
lookup-sweep_absent now seq ((k, q) ∷ table) e = elim (Bool-cases (k == seq)) [
  | inl same ↦ absurd (ground arith)
  | inr other ↦
      let rest = lookup-sweep_absent now seq table (ground arith) in
      elim (Bool-cases (ltb reassembly_ttl (now - q.started))) [
        | inl old ↦ rw old rest
        | inr young ↦ rw (young, lookup) (rw other rest)
      ]
]

pub started-fill : (i : ℕ) (f : List ℕ) (p : Partial) → (fill i f p).started ≡ p.started
unfolding fill
started-fill i f p = ground arith

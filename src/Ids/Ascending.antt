-- ===== src/Ids/Ascending.antt =====
-- Snowflakes ascend.
use messaging_app.Prelude.{
  Bool-cases, List, Result-cases, [], arith, inl, inr, leb, ok, refl, subst, suc, zero, ℕ, ◌%◌, ◌+◌,
  ◌<◌, ◌==◌, ◌^◌, ◌∷◌, ◌≡◌, ◌≢◌, ◌≤◌, ◌⊎◌,
}
use messaging_app.Ids.{
  Snowflake, advance, epoch, issue, layout, next, nodes, run, steps, time_of_id, wait_for,
}
use messaging_app.Prelude.Bytes.{All}

-- A generator in use: its fields have their widths.
pub record IsSnowflake (s : Snowflake) : Type 0 where
  pub node_fits : s.node < nodes
  pub step_fits : s.step < steps

-- Readings of a clock from the epoch on that leave the time its 41 bits.
abbrev pub IsReading : ℕ → Type 0
IsReading now = (epoch ≤ now) × (now < epoch + 2 ^ 41)

-- The id that the generator gave last.
abbrev pub last_id : Snowflake → ℕ
last_id s = layout s.last s.node s.step

-- Every number is greater than the one before it, and the first greater than `a`.
abbrev pub Ascends : ℕ → List ℕ → Type 0
Ascends a [] = Unit {0}
Ascends a (b ∷ bs) = (a < b) × Ascends b bs

wait_for_bound :
    (bound now : ℕ) (clock later : List ℕ)
    → wait_for bound clock ≡ ok (now, later)
    → All IsReading clock
    → (bound ≤ now) × IsReading now × All IsReading later
unfolding wait_for
wait_for_bound bound now [] later e h = cc
wait_for_bound bound now (t ∷ clock) later e h = elim (Bool-cases (leb bound t)) [
  | inl reached ↦
      let same : t ≡ now = ground arith in
      let rest : clock ≡ later = ground arith in
      let le : bound ≤ t = ground arith in
      (subst (λ n. bound ≤ n) same le, subst IsReading same h.0, subst (All IsReading) rest h.1)
  | inr early ↦ wait_for_bound bound now clock later (ground arith) h.1
]

-- A later time, or the same time and a later step.
layout_less :
    (now now' node step step' : ℕ)
    → IsReading now
    → IsReading now'
    → node < nodes
    → step < steps
    → (now < now') ⊎ ((now ≡ now') × (step < step'))
    → layout now node step < layout now' node step'
unfolding layout
layout_less now now' node step step' h h' hn hs (inl before) =
    omega (arith, h.0, h.1, h'.0, h'.1, hn, hs, before)
layout_less now now' node step step' h h' hn hs (inr (same, less)) = rw same (omega (arith, less))

-- What a call leaves behind.
record Issued (s : Snowflake) (id : ℕ) (s' : Snowflake) (later : List ℕ) : Type 0 where
  well : IsSnowflake s'
  is_last : id ≡ last_id s'
  reading : IsReading s'.last
  readings : All IsReading later
  after : (s.last < s'.last) ⊎ ((s.last ≡ s'.last) × (s.step < s'.step))
  same_node : s'.node ≡ s.node

issue-Issued :
    (now step : ℕ) (clock : List ℕ) (s : Snowflake)
    → IsSnowflake s
    → step < steps
    → IsReading now
    → All IsReading clock
    → (s.last < now) ⊎ ((s.last ≡ now) × (s.step < step))
    → Issued s (layout now s.node step) (record s { last = now; step = step }) clock
issue-Issued now step clock s w fits h all after = record {
  well = record { node_fits = w.node_fits; step_fits = fits };
  is_last = refl;
  reading = h;
  readings = all;
  after = after;
  same_node = refl;
}

abbrev IssuedBy : Snowflake → ℕ × Snowflake × List ℕ → Type 0
IssuedBy s r = Issued s r.0 r.1 r.2

next-Issued :
    (clock : List ℕ) (s : Snowflake) (r : ℕ × Snowflake × List ℕ)
    → IsSnowflake s
    → All IsReading clock
    → next clock s ≡ ok r
    → IssuedBy s r
unfolding next advance issue
next-Issued clock s r w all e = elim (Result-cases (wait_for s.last clock)) [
  | inl (x, ends) ↦ absurd (ground arith)
  | inr ((now, later), waited) ↦
      let (le, h, rest) = wait_for_bound s.last now clock later waited all in
      elim (Bool-cases (now == s.last)) [
        | inl same ↦
            let step = (s.step + 1) % steps in
            elim (Bool-cases (step == 0)) [
              | inl exhausted ↦ elim (Result-cases (wait_for (s.last + 1) later)) [
                | inl (x, ends) ↦ absurd (ground arith)
                | inr ((now', later'), waited') ↦
                    let (le', h', rest') =
                      wait_for_bound (s.last + 1) now' later later' waited' rest in
                    let eq : issue now' 0 later' s ≡ r = ground arith in
                    subst (IssuedBy s) eq (
                      issue-Issued now' 0 later' s w (omega arith) h' rest'
                        (inl (omega (arith, le'))))
              ]
              | inr goes_on ↦
                  let eq : issue now step later s ≡ r = ground arith in
                  let at : s.last ≡ now = ground arith in
                  let positive : step ≢ 0 = ground arith in
                  subst (IssuedBy s) eq (
                    issue-Issued now step later s w (omega arith) h rest
                      (inr (at, omega (arith, w.step_fits, positive))))
            ]
        | inr moved ↦
            let eq : issue now 0 later s ≡ r = ground arith in
            let differ : now ≢ s.last = ground arith in
            subst (IssuedBy s) eq
              (issue-Issued now 0 later s w (omega arith) h rest (inl (omega (arith, le, differ))))
      ]
]

-- However the clock goes, also backwards, the ids that a generator gives ascend, from the last one
-- that it gave, so that none is given twice. All readings, and the last time, are within 41 bits
-- of milliseconds from the epoch.
pub run-Ascends :
    (n : ℕ) (clock : List ℕ) (s s' : Snowflake) (ids : List ℕ)
    → IsSnowflake s
    → IsReading s.last
    → All IsReading clock
    → run n clock s ≡ ok (ids, s')
    → Ascends (last_id s) ids
unfolding run
run-Ascends zero clock s s' ids w h all e =
    let eq : [] ≡ ids = ground arith in subst (Ascends (last_id s)) eq tt
run-Ascends (suc n) clock s s' ids w h all e = elim (Result-cases (next clock s)) [
  | inl (x, ends) ↦ absurd (ground arith)
  | inr ((id, s1, later), given) ↦ elim (Result-cases (run n later s1)) [
    | inl (x, ends) ↦ absurd (ground arith)
    | inr ((more, s2), rest) ↦
        let i = next-Issued clock s (id, s1, later) w all given in
        let eq : id ∷ more ≡ ids = ground arith in
        let less : last_id s < last_id s1 = rw i.same_node (
          layout_less s.last s1.last s.node s.step s1.step h i.reading w.node_fits w.step_fits
            i.after) in
        let tail : Ascends (last_id s1) more =
          run-Ascends n later s1 s2 more i.well i.reading i.readings rest in
        subst (Ascends (last_id s)) eq (rw i.is_last (less, tail))
  ]
]

-- If the readings are within 41 bits of milliseconds from the epoch, the time of the id given is
-- the reading at which the generator gave it.
pub time_of_id-next :
    (clock later : List ℕ) (s s' : Snowflake) (id : ℕ)
    → IsSnowflake s
    → All IsReading clock
    → next clock s ≡ ok (id, s', later)
    → time_of_id id ≡ s'.last
unfolding time_of_id layout
time_of_id-next clock later s s' id w all given =
    let i = next-Issued clock s (id, s', later) w all given in
    rw i.is_last (omega (arith, i.reading.0, i.reading.1, i.well.node_fits, i.well.step_fits))

-- ===== src/Ids.antt =====
-- pkg/ids/ids.go: the snowflake generator.
pub mod Ascending
mod Tests
use messaging_app.Prelude.{
  List, Result, [], err, if◌then◌else◌, leb, ltb, ok, suc, zero, ℕ, ◌%◌, ◌*◌, ◌+◌, ◌-◌, ◌/◌, ◌==◌,
  ◌>>=◌, ◌>>◌, ◌^◌, ◌∷◌,
}

-- `Epoch`, in milliseconds.
abbrev pub epoch : ℕ
epoch = 1_704_067_200_000

-- `maxNode` and `maxStep`, each with one added.
abbrev pub nodes : ℕ
nodes = 2 ^ 10

abbrev pub steps : ℕ
steps = 2 ^ 12

-- What ends a call: a node out of range, or, in the model, the end of the readings.
pub data Error : Type 0 where
  bad_node clock_ended : Error

-- `Snowflake`
pub record Snowflake : Type 0 where
  pub node : ℕ
  pub last : ℕ
  pub step : ℕ

-- `NewSnowflake`, for a node that is not negative.
unfoldable pub new_snowflake : ℕ → Result Error Snowflake
new_snowflake node =
    if ltb node nodes then ok (record { node = node; last = 0; step = 0 }) else err bad_node

-- A loop that reads the clock until the reading is at least `bound`, over the readings to come: the
-- reading it ends with and the later ones, or an error where the readings end before that.
unfoldable pub wait_for : ℕ → List ℕ → Result Error (ℕ × List ℕ)
wait_for bound [] = err clock_ended
wait_for bound (now ∷ clock) =
    let rest = wait_for bound clock in if leb bound now then ok (now, clock) else rest

-- The id of a time, a node and a step. The three fields have no bit in common, so that `|` adds them.
unfoldable pub layout : ℕ → ℕ → ℕ → ℕ
layout now node step = (now - epoch) * 2 ^ 22 % 2 ^ 64 + node * 2 ^ 12 + step

-- The last part of `Next`.
unfoldable pub issue : ℕ → ℕ → List ℕ → Snowflake → ℕ × Snowflake × List ℕ
issue now step clock s = (layout now s.node step, record s { last = now; step = step }, clock)

-- `Next` after its first loop, at a reading that is not before the last time.
unfoldable pub advance : ℕ → List ℕ → Snowflake → Result Error (ℕ × Snowflake × List ℕ)
advance now later s =
    let step = (s.step + 1) % steps in
    if now == s.last
    then (if step == 0
        then (do (now', later') ← wait_for (s.last + 1) later; ok (issue now' 0 later' s))
        else ok (issue now step later s))
    else ok (issue now 0 later s)

-- `Next`: the id, the generator after it, and the readings that are left.
unfoldable pub next : List ℕ → Snowflake → Result Error (ℕ × Snowflake × List ℕ)
next clock s = do (now, later) ← wait_for s.last clock; advance now later s

-- `TimeOf`, in milliseconds.
unfoldable pub time_of_id : ℕ → ℕ
time_of_id id = id / 2 ^ 22 + epoch

-- `n` calls of `Next`, one after the other.
unfoldable pub run : ℕ → List ℕ → Snowflake → Result Error (List ℕ × Snowflake)
run zero clock s = ok ([], s)
run (suc n) clock s = do
  (id, s', later) ← next clock s
  (ids, s'') ← run n later s'
  ok (id ∷ ids, s'')

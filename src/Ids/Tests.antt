-- ===== src/Ids/Tests.antt =====
-- A generator over a few readings.
use messaging_app.Prelude.{List, [], arith, refl, ℕ, ◌+◌, ◌∷◌, ◌≡◌}
use messaging_app.Ids.{Snowflake, advance, epoch, issue, layout, next, run, time_of_id, wait_for}
use messaging_app.Ids.Ascending.{
  Ascends, IsReading, IsSnowflake, last_id, run-Ascends, time_of_id-next,
}
use messaging_app.Prelude.Bytes.{All}

abbrev used : Snowflake
used = record { node = 3; last = epoch + 5; step = 4095 }

-- The clock goes back by two milliseconds, and then on.
abbrev readings : List ℕ
readings = (epoch + 3) ∷ (epoch + 5) ∷ (epoch + 5) ∷ (epoch + 6) ∷ (epoch + 6) ∷ []

readings_fit : All IsReading readings
readings_fit = (
  (omega arith, omega arith),
  (
    (omega arith, omega arith),
    ((omega arith, omega arith), ((omega arith, omega arith), ((omega arith, omega arith), tt))),
  ),
)

used-IsSnowflake : IsSnowflake used
used-IsSnowflake = record { node_fits = omega arith; step_fits = omega arith }

run-Ascends_example : Ascends (last_id used) (layout (epoch + 6) 3 0 ∷ layout (epoch + 6) 3 1 ∷ [])
unfolding run next advance wait_for issue
run-Ascends_example =
    run-Ascends 2 readings used (record { node = 3; last = epoch + 6; step = 1 })
      (layout (epoch + 6) 3 0 ∷ layout (epoch + 6) 3 1 ∷ []) used-IsSnowflake
      (omega arith, omega arith) readings_fit refl

first_time_read_back : time_of_id (layout (epoch + 6) 3 0) ≡ epoch + 6
unfolding next advance wait_for issue
first_time_read_back =
    time_of_id-next readings ((epoch + 6) ∷ []) used
      (record { node = 3; last = epoch + 6; step = 0 }) (layout (epoch + 6) 3 0) used-IsSnowflake
      readings_fit refl

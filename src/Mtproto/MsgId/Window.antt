-- ===== src/Mtproto/MsgId/Window.antt =====
-- The validator refuses replays, and its memory is bounded.
use messaging_app.Prelude.{
  Bool-cases, List, [], arith, false, inl, inr, is_some, length, length-drop, ltb, max, ok, refl,
  some, ℕ, ◌%◌, ◌+◌, ◌-◌, ◌/◌, ◌<◌, ◌∷◌, ◌≡◌, ◌≤◌,
}
use messaging_app.Mtproto.MsgId.{Validator, check, clock, make_room, sweep, time_of}
use messaging_app.Prelude.Assoc.{insert, length-insert, lookup, lookup-insert}

-- An id that was accepted is refused if it is the next one checked, at any time.
pub check_replay :
    (order order' : List (ℕ × ℕ) → List (ℕ × ℕ)) (now later id : ℕ) (v v' : Validator)
    → check order now id v ≡ ok v'
    → ¬ ((v'' : Validator) × (check order' later id v' ≡ ok v''))
unfolding check
check_replay order order' now later id v v' accepted (v'', again) =
    let table = make_room order now v.behind v.max_seen v.seen in
    let same : v' ≡ record v { seen = insert id now table } = ground arith in
    let there : lookup id (insert id now table) ≡ some now =
      ground (arith, lookup-insert id id now table) in
    let there' : lookup id v'.seen ≡ some now = rw same there in
    let refused : is_some (lookup id v'.seen) ≡ false = ground arith in ground arith

length-sweep : (cutoff : ℕ) (seen : List (ℕ × ℕ)) → length (sweep cutoff seen) ≤ length seen
unfolding sweep
length-sweep cutoff [] = omega arith
length-sweep cutoff ((id, at) ∷ seen) = ground (arith, length-sweep cutoff seen)

make_room_bounds :
    (order : List (ℕ × ℕ) → List (ℕ × ℕ)) (now behind max_seen : ℕ) (seen : List (ℕ × ℕ))
    → ((seen : List (ℕ × ℕ)) → length (order seen) ≡ length seen)
    → 0 < max_seen
    → length seen ≤ max_seen
    → length (make_room order now behind max_seen seen) < max_seen
unfolding make_room
make_room_bounds order now behind max_seen seen permuted positive bounded =
    let kept = sweep (now - behind) seen in
    elim (Bool-cases (ltb (length seen) max_seen)) [
      | inl room ↦ ground arith
      | inr crowded ↦ elim (Bool-cases (ltb (length kept) max_seen)) [
        | inl swept ↦ ground arith
        | inr flooded ↦
            let size = length-drop (max 1 (length kept / 2)) (order kept) in
            let one : 1 ≤ max 1 (length kept / 2) = omega arith in
            ground (arith, length-sweep (now - behind) seen, size, permuted kept, one)
      ]
    ]

-- If no more than maxSeen ids are remembered, which is at least 1, the same holds after an
-- accepted check, in whatever order the map is iterated; and the id accepted is even and within
-- the window.
pub check_bounded :
    (order : List (ℕ × ℕ) → List (ℕ × ℕ)) (now id : ℕ) (v v' : Validator)
    → ((seen : List (ℕ × ℕ)) → length (order seen) ≡ length seen)
    → 0 < v.max_seen
    → length v.seen ≤ v.max_seen
    → check order now id v ≡ ok v'
    → (length v'.seen ≤ v'.max_seen)
      × (v'.max_seen ≡ v.max_seen)
      × (id % 2 ≡ 0)
      × (clock now ≤ time_of id + v.behind)
      × (time_of id ≤ clock now + v.ahead)
unfolding check
check_bounded order now id v v' permuted positive bounded accepted =
    let table = make_room order now v.behind v.max_seen v.seen in
    let room : length table < v.max_seen =
      make_room_bounds order now v.behind v.max_seen v.seen permuted positive bounded in
    let same : v' ≡ record v { seen = insert id now table } = ground arith in
    let size : length (insert id now table) ≤ v.max_seen =
      ground (arith, length-insert id now table, room) in
    let even : id % 2 ≡ 0 = ground arith in
    let recent : clock now - time_of id ≤ v.behind = ground arith in
    let early : time_of id - clock now ≤ v.ahead = ground arith in
    (rw same size, rw same refl, even, omega (arith, recent), omega (arith, early))

-- ===== src/Auth/SignIn/Attempts.antt =====
-- The limit on wrong codes of services/auth-service/internal/service.go.
use messaging_app.Prelude.{
  Bool-cases, List, Option-cases, Result-cases, [], arith, inl, inr, ok, some, subst, sym, ℕ, ◌<◌,
  ◌∙◌, ◌∷◌, ◌≡◌, ◌≤◌,
}
use messaging_app.Auth.{Challenge, Db}
use messaging_app.Auth.SignIn.{
  Env, SignInRequest, check_challenge, consume, find_or_create_user, handle_sign_in,
  increment_attempts, redeem, register,
}
use messaging_app.Auth.SignIn.Once.{find_or_create_user_challenges, register_challenges}
use messaging_app.Prelude.Assoc.{Values, Values-insert, Values-lookup, insert, lookup}
use messaging_app.Prelude.Bytes.{All}

-- A challenge has counted no more wrong codes than the limit.
abbrev pub IsWithin : ℕ → Challenge → Type 0
IsWithin limit c = c.attempts ≤ limit

abbrev pub IsLimited : ℕ → Db → Type 0
IsLimited limit db = Values (IsWithin limit) db.challenges

-- Sign-ins that come one after the other, each in its own surroundings.
unfoldable pub run : List (Env × SignInRequest) → Db → Db
run [] db = db
run ((env, req) ∷ reqs) db = run reqs (handle_sign_in env req db).0

increment_attempts-IsLimited :
    (limit id : ℕ) (db : Db) (c : Challenge)
    → lookup id db.challenges ≡ some c
    → c.attempts < limit
    → IsLimited limit db
    → IsLimited limit (increment_attempts id db)
unfolding increment_attempts
increment_attempts-IsLimited limit id db c found below h =
    rw (increment_attempts, found)
      (Values-insert (IsWithin limit) id _ db.challenges (omega (arith, below)) h)

consume-IsLimited :
    (limit now id : ℕ) (db db1 : Db)
    → consume now id db ≡ ok db1
    → IsLimited limit db
    → IsLimited limit db1
unfolding consume
consume-IsLimited limit now id db db1 e h = elim (Option-cases (lookup id db.challenges)) [
  | inl missing ↦ absurd (ground arith)
  | inr (c, found) ↦
      let done = record c { consumed_at = some now } in
      let same : record db { challenges = insert id done db.challenges } ≡ db1 = ground arith in
      subst (IsLimited limit) same (
        Values-insert (IsWithin limit) id done db.challenges
          (Values-lookup (IsWithin limit) id c db.challenges h found) h)
]

redeem-IsLimited :
    (limit : ℕ) (env : Env) (req : SignInRequest) (c : Challenge) (db : Db)
    → IsLimited limit db
    → IsLimited limit (redeem env req c db).0
unfolding redeem
redeem-IsLimited limit env req c db h = elim (Result-cases (consume env.now req.challenge_id db)) [
  | inl (bad, failed) ↦ rw (redeem, failed) h
  | inr (db0, consumed) ↦
      let h0 = consume-IsLimited limit env.now req.challenge_id db db0 consumed h in
      elim (Result-cases (find_or_create_user env c.phone req.display_name db0)) [
        | inl (bad, failed) ↦ rw (redeem, consumed, failed) h0
        | inr ((u, created, db2), found) ↦
            let kept : (register env req (u, created, db2)).0.challenges ≡ db0.challenges =
              register_challenges env req u created db2
              ∙ find_or_create_user_challenges env c.phone req.display_name db0 u created db2
                  found in
            rw (redeem, consumed, found) (subst (Values (IsWithin limit)) (sym kept) h0)
      ]
]

check_challenge_passed :
    (env : Env) (req : SignInRequest) (db : Db) (c : Challenge)
    → check_challenge env req db ≡ ok c
    → (lookup req.challenge_id db.challenges ≡ some c) × (c.attempts < env.max_attempts)
unfolding check_challenge
check_challenge_passed env req db c e =
    elim (Option-cases (lookup req.challenge_id db.challenges)) [
      | inl missing ↦ absurd (ground arith)
      | inr (c', found) ↦ ground arith
    ]

handle_sign_in-IsLimited :
    (env : Env) (req : SignInRequest) (db : Db)
    → IsLimited env.max_attempts db
    → IsLimited env.max_attempts (handle_sign_in env req db).0
unfolding handle_sign_in
handle_sign_in-IsLimited env req db h = elim (Result-cases (check_challenge env req db)) [
  | inl (bad, refused) ↦ rw (handle_sign_in, refused) h
  | inr (c, passed) ↦
      let (found, below) = check_challenge_passed env req db c passed in
      elim (Bool-cases (env.matches c.code_hash (env.trim req.code))) [
        | inl right ↦
            rw (handle_sign_in, passed, right) (redeem-IsLimited env.max_attempts env req c db h)
        | inr wrong ↦
            rw (handle_sign_in, passed, wrong)
              (increment_attempts-IsLimited env.max_attempts req.challenge_id db c found below h)
      ]
]

-- However many sign-ins come, one after the other, at whatever times and with whatever codes, no
-- challenge counts more wrong codes than the limit, which is the same for all of them.
pub IsLimited-run :
    (limit : ℕ) (reqs : List (Env × SignInRequest)) (db : Db)
    → All (λ (r : Env × SignInRequest). r.0.max_attempts ≡ limit) reqs
    → IsLimited limit db
    → IsLimited limit (run reqs db)
unfolding run
IsLimited-run limit [] db same h = h
IsLimited-run limit ((env, req) ∷ reqs) db same h =
    IsLimited-run limit reqs (handle_sign_in env req db).0 same.1 (
      subst (λ n. IsLimited n (handle_sign_in env req db).0) same.0
        (handle_sign_in-IsLimited env req db (subst (λ n. IsLimited n db) (sym same.0) h)))

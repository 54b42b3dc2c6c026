-- ===== src/Auth/SignIn/Once.antt =====
-- A code signs in at most once.
use messaging_app.Prelude.{
  ==_refl, Bool, Bool-cases, List, Option-cases, Result, Result-cases, ap, arith, err, inl, inr, ok,
  refl, some, subst, sym, ℕ, ◌∙◌, ◌≡◌,
}
use messaging_app.Auth.{Challenge, Db, Failure, User}
use messaging_app.Auth.SignIn.{
  Env, SignInRequest, SignInResponse, check_challenge, consume, find_or_create_user, handle_sign_in,
  redeem, register,
}
use messaging_app.Prelude.Assoc.{insert, lookup, lookup-insert}

-- The challenge is consumed in the table.
abbrev pub IsConsumed : ℕ → Db → Type 0
IsConsumed id db =
    (c : Challenge) × (at : ℕ) × (lookup id db.challenges ≡ some c) × (c.consumed_at ≡ some at)

consume-IsConsumed : (now id : ℕ) (db db1 : Db) → consume now id db ≡ ok db1 → IsConsumed id db1
unfolding consume
consume-IsConsumed now id db db1 e = elim (Option-cases (lookup id db.challenges)) [
  | inl missing ↦ absurd (ground arith)
  | inr (c, found) ↦
      let done = record c { consumed_at = some now } in
      let same : record db { challenges = insert id done db.challenges } ≡ db1 = ground arith in
      (
        done,
        now,
        subst (λ x. lookup id x.challenges ≡ some done) same
            (lookup-insert id id done db.challenges ∙ rw (==_refl id) refl),
        refl,
      )
]

pub find_or_create_user_challenges :
    (env : Env) (phone : ℕ) (name : List ℕ) (db : Db) (u : User) (created : Bool) (db1 : Db)
    → find_or_create_user env phone name db ≡ ok (u, created, db1)
    → db1.challenges ≡ db.challenges
unfolding find_or_create_user
find_or_create_user_challenges env phone name db u created db1 e = ground arith

pub register_challenges :
    (env : Env) (req : SignInRequest) (u : User) (created : Bool) (db : Db)
    → (register env req (u, created, db)).0.challenges ≡ db.challenges
unfolding register
register_challenges env req u created db = ground arith

IsConsumed-challenges :
    (id : ℕ) (db db1 : Db) → db1.challenges ≡ db.challenges → IsConsumed id db → IsConsumed id db1
IsConsumed-challenges id db db1 same (c, at, found, used) =
    (c, at, ap (lookup id) same ∙ found, used)

redeem-IsConsumed :
    (env : Env) (req : SignInRequest) (c : Challenge) (db db1 : Db) (r : SignInResponse)
    → redeem env req c db ≡ (db1, ok r)
    → IsConsumed req.challenge_id db1
unfolding redeem
redeem-IsConsumed env req c db db1 r e = elim (Result-cases (consume env.now req.challenge_id db)) [
  | inl (bad, failed) ↦ absurd (ground arith)
  | inr (db0, consumed) ↦
      elim (Result-cases (find_or_create_user env c.phone req.display_name db0)) [
        | inl (bad, failed) ↦ absurd (ground arith)
        | inr ((u, created, db2), found) ↦
            let done = consume-IsConsumed env.now req.challenge_id db db0 consumed in
            let same : register env req (u, created, db2) ≡ (db1, ok r) = ground arith in
            let kept =
              find_or_create_user_challenges env c.phone req.display_name db0 u created db2 found in
            let end : db1.challenges ≡ db2.challenges =
              ap (λ (p : Db × Result Failure SignInResponse). p.0.challenges) (sym same)
              ∙ register_challenges env req u created db2 in
            IsConsumed-challenges req.challenge_id db0 db1 (end ∙ kept) done
      ]
]

sign_in-IsConsumed :
    (env : Env) (req : SignInRequest) (db db1 : Db) (r : SignInResponse)
    → handle_sign_in env req db ≡ (db1, ok r)
    → IsConsumed req.challenge_id db1
unfolding handle_sign_in
sign_in-IsConsumed env req db db1 r e = elim (Result-cases (check_challenge env req db)) [
  | inl (bad, refused) ↦ absurd (ground arith)
  | inr (c, passed) ↦ elim (Bool-cases (env.matches c.code_hash (env.trim req.code))) [
    | inl right ↦
        let same : redeem env req c db ≡ (db1, ok r) = ground arith in
        redeem-IsConsumed env req c db db1 r same
    | inr wrong ↦ absurd (ground arith)
  ]
]

check_challenge_consumed :
    (env : Env) (req : SignInRequest) (db : Db)
    → IsConsumed req.challenge_id db
    → (e : Failure) × (check_challenge env req db ≡ err e)
unfolding check_challenge
check_challenge_consumed env req db (c, at, found, used) =
    elim (Result-cases (check_challenge env req db)) [
      | inl (e, refused) ↦ (e, refused)
      | inr (c', passed) ↦ absurd (ground arith)
    ]

-- After a sign-in, every sign-in with the same challenge is refused and changes nothing, at any time, with
-- any code and under any limits.
pub handle_sign_in_once :
    (env env1 : Env) (req req1 : SignInRequest) (db db1 : Db) (r : SignInResponse)
    → handle_sign_in env req db ≡ (db1, ok r)
    → req1.challenge_id ≡ req.challenge_id
    → (e : Failure) × (handle_sign_in env1 req1 db1 ≡ (db1, err e))
unfolding handle_sign_in
handle_sign_in_once env env1 req req1 db db1 r e same =
    let done = sign_in-IsConsumed env req db db1 r e in
    let (bad, refused) =
      check_challenge_consumed env1 req1 db1 (subst (λ id. IsConsumed id db1) (sym same) done) in
    (bad, rw (handle_sign_in, refused) refl)

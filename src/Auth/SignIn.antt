-- ===== src/Auth/SignIn.antt =====
-- Sign-in with a code: services/auth-service/internal/service.go, and the challenges of
-- pkg/pgstore/users.go.
pub mod Once
pub mod Attempts
use messaging_app.Prelude.{
  Bool, List, Option, Result, [], err, false, if◌then◌else◌, is_some, leb, length, ltb, none, not,
  ok, refuse, some, true, ℕ, ◌&&◌, ◌+◌, ◌==◌, ◌>>=◌, ◌>>◌, ◌||◌, ◌∷◌,
}
use messaging_app.Auth.{
  Challenge, Db, Device, Failure, User, bad_request, forbidden, internal, not_found, unauthorized,
}
use messaging_app.Auth.Devices.{upsert}
use messaging_app.Prelude.Assoc.{insert, lookup}

-- What the handler gets from outside: the clock, the limit on attempts, bcrypt, trimming, the new ids, the
-- rate limits and the issuer of tokens. `name_length` counts runes.
pub record Env : Type 0 where
  pub now : ℕ
  pub max_attempts : ℕ
  pub matches : List ℕ → List ℕ → Bool
  pub trim : List ℕ → List ℕ
  pub name_length : List ℕ → ℕ
  pub new_user_id : ℕ
  pub new_device_id : ℕ
  pub generated_key_id : ℕ
  pub login_limit : Result Failure Unit
  pub verify_limit : Result Failure Unit
  pub issues : Bool

-- `signInRequest`; an id of 0 is the empty one.
pub record SignInRequest : Type 0 where
  pub challenge_id : ℕ
  pub code : List ℕ
  pub display_name : List ℕ
  pub auth_key_id : ℕ

pub record SignInResponse : Type 0 where
  pub user : User
  pub device_id : ℕ
  pub created : Bool

-- `IncrementAttempts`
unfoldable pub increment_attempts : ℕ → Db → Db
increment_attempts id db = elim (lookup id db.challenges) [
  | none ↦ db
  | some c ↦ record db {
    challenges = insert id (record c { attempts = c.attempts + 1 }) db.challenges;
  }
]

-- `Consume`: only a challenge that is not consumed and has not expired.
unfoldable pub consume : ℕ → ℕ → Db → Result Failure Db
consume now id db = do
  c ← elim (lookup id db.challenges) [ none ↦ err not_found | some c ↦ ok c ]
  refuse (is_some c.consumed_at || leb c.expires_at now) not_found
  ok (record db { challenges = insert id (record c { consumed_at = some now }) db.challenges })

-- `GetByPhone`
unfoldable pub get_by_phone : ℕ → List User → Option User
get_by_phone phone [] = none
get_by_phone phone (u ∷ users) =
    if u.phone == phone && not u.deleted then some u else get_by_phone phone users

-- `findOrCreateUser`, with no other request in between; a new account is not banned.
unfoldable pub find_or_create_user : Env → ℕ → List ℕ → Db → Result Failure (User × Bool × Db)
find_or_create_user env phone display_name db = elim (get_by_phone phone db.users) [
  | some u ↦ ok (u, false, db)
  | none ↦ do
    let name = env.trim display_name
    refuse (length name == 0) bad_request
    refuse (ltb 64 (env.name_length name)) bad_request
    let u : User = record {
      id = env.new_user_id;
      phone = phone;
      display_name = name;
      banned = false;
      deleted = false;
    }
    ok (u, true, record db { users = u ∷ db.users })
]

-- The checks of `handleSignIn` before the code is compared.
unfoldable pub check_challenge : Env → SignInRequest → Db → Result Failure Challenge
check_challenge env req db = do
  refuse (req.challenge_id == 0 || length req.code == 0) bad_request
  env.login_limit
  c ← elim (lookup req.challenge_id db.challenges) [ none ↦ err unauthorized | some c ↦ ok c ]
  env.verify_limit
  refuse (is_some c.consumed_at) unauthorized
  refuse (ltb c.expires_at env.now) unauthorized
  refuse (leb env.max_attempts c.attempts) unauthorized
  ok c

-- What follows the consumption of the challenge.
unfoldable pub register :
    Env → SignInRequest → User × Bool × Db → Db × Result Failure SignInResponse
register env req (user, created, db) =
    let key_id = if req.auth_key_id == 0 then env.generated_key_id else req.auth_key_id in
    let row : Device = record {
      id = env.new_device_id;
      user_id = user.id;
      auth_key_id = key_id;
      push_token = none;
      last_seen_at = env.now;
      revoked_at = none;
    } in
    let (device, rows) = upsert env.now row db.devices in
    let db1 = record db { devices = rows } in
    if user.banned
    then (db, err forbidden)
    else if env.issues
    then (db1, ok (record { user = user; device_id = device.id; created = created }))
    else (db1, err internal)

-- The part of `handleSignIn` with a right code.
unfoldable pub redeem : Env → SignInRequest → Challenge → Db → Db × Result Failure SignInResponse
redeem env req c db = elim (consume env.now req.challenge_id db) [
  | err e ↦ (db, err unauthorized)
  | ok db1 ↦ elim (find_or_create_user env c.phone req.display_name db1) [
    | err e ↦ (db1, err e)
    | ok found ↦ register env req found
  ]
]

-- `handleSignIn`
unfoldable pub handle_sign_in : Env → SignInRequest → Db → Db × Result Failure SignInResponse
handle_sign_in env req db = elim (check_challenge env req db) [
  | err e ↦ (db, err e)
  | ok c ↦
      if env.matches c.code_hash (env.trim req.code)
      then redeem env req c db
      else (increment_attempts req.challenge_id db, err unauthorized)
]

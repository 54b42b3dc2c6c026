-- ===== src/Auth/Tests.antt =====
-- One account with one device, and one challenge.
use messaging_app.Prelude.{
  List, Result, [], arith, err, false, length, none, ok, refl, replicate, some, true, ℕ, ◌∷◌, ◌≡◌,
}
use messaging_app.Auth.{Challenge, Claims, Db, Device, Failure, User, unauthorized}
use messaging_app.Auth.Devices.{
  get_by_id, handle_refresh, handle_resolve_token, handle_revoke_device, revoke, revoked, upsert,
}
use messaging_app.Auth.Devices.Reinstated.{resolve_token_reinstates}
use messaging_app.Auth.Devices.Revoked.{handle_refresh-handle_revoke_device, revoke_each}
use messaging_app.Auth.SignIn.{
  Env, SignInRequest, SignInResponse, check_challenge, consume, find_or_create_user, get_by_phone,
  handle_sign_in, increment_attempts, redeem, register,
}
use messaging_app.Auth.SignIn.Attempts.{IsLimited, IsLimited-run, run}
use messaging_app.Auth.SignIn.Once.{handle_sign_in_once}
use messaging_app.Prelude.Assoc.{insert, lookup}
use messaging_app.Prelude.Bytes.{bytes_eq}

abbrev some_user : User
some_user = record {
  id = 3;
  phone = 20100;
  display_name = 65 ∷ [];
  banned = false;
  deleted = false;
}

abbrev some_device : Device
some_device = record {
  id = 4;
  user_id = 3;
  auth_key_id = 42;
  push_token = none;
  last_seen_at = 1;
  revoked_at = none;
}

abbrev some_challenge : Challenge
some_challenge = record {
  phone = 20100;
  code_hash = 1 ∷ 2 ∷ [];
  attempts = 0;
  expires_at = 100;
  consumed_at = none;
}

abbrev some_db : Db
some_db = record {
  challenges = (7, some_challenge) ∷ [];
  users = some_user ∷ [];
  devices = some_device ∷ [];
}

abbrev some_claims : Claims
some_claims = record { user_id = 3; device_id = 4 }

-- A hash is the code itself, and nothing is limited.
abbrev some_env : Env
some_env = record {
  now = 5;
  max_attempts = 3;
  matches = bytes_eq;
  trim = λ s. s;
  name_length = length;
  new_user_id = 8;
  new_device_id = 9;
  generated_key_id = 77;
  login_limit = ok tt;
  verify_limit = ok tt;
  issues = true;
}

abbrev with_code : List ℕ → SignInRequest
with_code code = record { challenge_id = 7; code = code; display_name = []; auth_key_id = 42 }

abbrev db_of : Db × Result Failure SignInResponse → Db
db_of p = p.0

-- A wrong code is counted.
wrong_code : (handle_sign_in some_env (with_code (9 ∷ [])) some_db).1 ≡ err unauthorized
unfolding handle_sign_in check_challenge increment_attempts bytes_eq lookup insert
wrong_code = refl

handle_sign_in_once_example :
    (e : Failure) × (handle_sign_in some_env
        (with_code (1 ∷ 2 ∷ []))
        (db_of (handle_sign_in some_env (with_code (1 ∷ 2 ∷ [])) some_db))
      ≡ (db_of (handle_sign_in some_env (with_code (1 ∷ 2 ∷ [])) some_db), err e))
unfolding handle_sign_in check_challenge redeem consume find_or_create_user get_by_phone register
    upsert bytes_eq lookup insert
handle_sign_in_once_example =
    handle_sign_in_once some_env some_env (with_code (1 ∷ 2 ∷ [])) (with_code (1 ∷ 2 ∷ [])) some_db
      (db_of (handle_sign_in some_env (with_code (1 ∷ 2 ∷ [])) some_db))
      (record { user = some_user; device_id = 4; created = false }) refl refl

abbrev revoked_db : Db
revoked_db = record some_db { devices = record some_device { revoked_at = some 5 } ∷ [] }

handle_refresh-handle_revoke_device_example :
    handle_refresh
      (some (record some_claims { device_id = 4 }))
      (revoke_each ((6, some_claims, 4) ∷ []) revoked_db)
    ≡ err unauthorized
unfolding handle_revoke_device revoke revoked
handle_refresh-handle_revoke_device_example =
    handle_refresh-handle_revoke_device 5 4 some_claims (record some_claims { device_id = 4 })
      ((6, some_claims, 4) ∷ []) some_db revoked_db refl refl refl

resolve_token_reinstates_example :
    (handle_refresh (some some_claims) revoked_db ≡ err unauthorized)
    × (db2 : Db) × (handle_resolve_token 6 10 (some some_claims) 42 revoked_db
        ≡ ok (some_claims, db2))
    × (handle_refresh (some some_claims) db2 ≡ ok some_claims)
unfolding handle_revoke_device revoke revoked get_by_id
resolve_token_reinstates_example =
    resolve_token_reinstates 5 6 10 42 some_claims some_db revoked_db some_user refl refl refl
      (some_device, refl, refl, refl) refl

-- Four wrong codes, of which the last is not compared.
abbrev wrong_codes : List (Env × SignInRequest)
wrong_codes = replicate 4 (some_env, with_code (9 ∷ []))

IsLimited-run_example : IsLimited 3 (run wrong_codes some_db)
IsLimited-run_example =
    IsLimited-run 3 wrong_codes some_db (refl, (refl, (refl, (refl, tt)))) (omega arith, tt)

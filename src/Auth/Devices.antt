-- ===== src/Auth/Devices.antt =====
-- Sessions: pkg/pgstore/users.go, and the handlers of services/auth-service/internal/service.go that use them.
pub mod Revoked
pub mod Reinstated
use messaging_app.Prelude.{
  Bool, List, Option, Result, [], err, false, if◌then◌else◌, is_some, length, ltb, none, not, ok,
  refuse, some, true, ℕ, ◌&&◌, ◌+◌, ◌==◌, ◌>>=◌, ◌>>◌, ◌∷◌,
}
use messaging_app.Auth.{
  Claims, Db, Device, Failure, User, bad_request, forbidden, not_found, unauthorized,
}

-- `Upsert`: a row with the auth key id keeps its id and its user, and is no longer revoked.
unfoldable pub upsert : ℕ → Device → List Device → Device × List Device
upsert now d [] = (d, d ∷ [])
upsert now d (row ∷ rows) =
    let rest = upsert now d rows in
    let kept = record row { last_seen_at = now; revoked_at = none } in
    if row.auth_key_id == d.auth_key_id then (kept, kept ∷ rows) else (rest.0, row ∷ rest.1)

-- `ListForUser`, in the order of the table
unfoldable pub list_for_user : ℕ → List Device → List Device
list_for_user user [] = []
list_for_user user (row ∷ rows) =
    let rest = list_for_user user rows in
    if row.user_id == user && not (is_some row.revoked_at) then row ∷ rest else rest

-- `SET revoked_at = now(), push_token = NULL`
unfoldable pub revoked : ℕ → Device → Device
revoked now d = record d { push_token = none; revoked_at = some now }

-- `Revoke`: how many rows it changes, and the table.
unfoldable pub revoke : ℕ → ℕ → ℕ → List Device → ℕ × List Device
revoke now user device [] = (0, [])
revoke now user device (row ∷ rows) =
    let rest = revoke now user device rows in
    if row.id == device && (row.user_id == user && not (is_some row.revoked_at))
    then (rest.0 + 1, revoked now row ∷ rest.1)
    else (rest.0, row ∷ rest.1)

-- `RevokeAllExcept`
unfoldable pub revoke_all_except : ℕ → ℕ → ℕ → List Device → ℕ × List Device
revoke_all_except now user keep [] = (0, [])
revoke_all_except now user keep (row ∷ rows) =
    let rest = revoke_all_except now user keep rows in
    if row.user_id == user && (not (row.id == keep) && not (is_some row.revoked_at))
    then (rest.0 + 1, revoked now row ∷ rest.1)
    else (rest.0, row ∷ rest.1)

-- `SetPushToken`; an empty token is NULL.
unfoldable pub set_push_token : ℕ → ℕ → List ℕ → List Device → List Device
set_push_token now device token [] = []
set_push_token now device token (row ∷ rows) =
    let rest = set_push_token now device token rows in
    let value : Option (List ℕ) = elim token [ [] ↦ none | b ∷ bs ↦ some (b ∷ bs) ] in
    if row.id == device
    then record row { push_token = value; last_seen_at = now } ∷ rest
    else row ∷ rest

-- `handleRevokeDevice`
unfoldable pub handle_revoke_device : ℕ → Claims → ℕ → Db → Result Failure Db
handle_revoke_device now claims device db = do
  let (changed, rows) = revoke now claims.user_id device db.devices
  refuse (changed == 0) not_found
  ok (record db { devices = rows })

-- `handleRevokeOthers`
unfoldable pub handle_revoke_others : ℕ → Claims → Db → ℕ × Db
handle_revoke_others now claims db =
    let (changed, rows) = revoke_all_except now claims.user_id claims.device_id db.devices in
    (changed, record db { devices = rows })

-- `handleSetPushToken`
unfoldable pub handle_set_push_token : ℕ → Claims → List ℕ → Db → Result Failure Db
handle_set_push_token now claims token db = do
  refuse (ltb 4096 (length token)) bad_request
  ok (record db { devices = set_push_token now claims.device_id token db.devices })

-- `GetByID`
unfoldable pub get_by_id : ℕ → List User → Option User
get_by_id id [] = none
get_by_id id (u ∷ users) = if u.id == id && not u.deleted then some u else get_by_id id users

-- The loop of `handleRefresh` over the user's devices.
unfoldable pub is_active : ℕ → List Device → Bool
is_active device [] = false
is_active device (d ∷ devices) = if d.id == device then true else is_active device devices

-- `handleRefresh` with the claims that `Verify` gives, `none` for a refusal: the claims of the new tokens.
unfoldable pub handle_refresh : Option Claims → Db → Result Failure Claims
handle_refresh verified db = do
  claims ← elim verified [ none ↦ err unauthorized | some c ↦ ok c ]
  refuse (not (is_active claims.device_id (list_for_user claims.user_id db.devices))) unauthorized
  user ← elim (get_by_id claims.user_id db.users) [ none ↦ err unauthorized | some u ↦ ok u ]
  refuse user.banned forbidden
  ok claims

-- `handleResolveToken`: the claims of the access token are as for a refresh; an auth key id of 0 is the empty
-- one, and `new_id` is what `IDs.Next` gives.
unfoldable pub handle_resolve_token : ℕ → ℕ → Option Claims → ℕ → Db → Result Failure (Claims × Db)
handle_resolve_token now new_id verified auth_key_id db = do
  claims ← elim verified [ none ↦ err unauthorized | some c ↦ ok c ]
  user ← elim (get_by_id claims.user_id db.users) [ none ↦ err unauthorized | some u ↦ ok u ]
  refuse user.banned forbidden
  let row : Device = record {
    id = new_id;
    user_id = user.id;
    auth_key_id = auth_key_id;
    push_token = none;
    last_seen_at = now;
    revoked_at = none;
  }
  let (device, rows) = upsert now row db.devices
  let bound = record db { devices = rows }
  (if auth_key_id == 0
      then ok (claims, db)
      else ok (record claims { device_id = device.id }, bound))

-- ===== src/Auth/Devices/Reinstated.antt =====
-- What a live access token does to a revoked device.
use messaging_app.Prelude.{
  Bool-cases, List, Option, [], ap, arith, err, false, if◌then◌else◌, inl, inr, is_some, none, not,
  ok, refl, some, subst, sym, true, ℕ, ◌&&◌, ◌==◌, ◌∙◌, ◌∷◌, ◌≡◌,
}
use messaging_app.Auth.{Claims, Db, Device, User, unauthorized}
use messaging_app.Auth.Devices.{
  get_by_id, handle_refresh, handle_resolve_token, handle_revoke_device, is_active, list_for_user,
  revoke, revoked, upsert,
}
use messaging_app.Auth.Devices.Revoked.{handle_refresh-handle_revoke_device, revoke_each}

-- The row with the auth key id, of which there is one at most.
abbrev pub by_auth_key : ℕ → List Device → Option Device
by_auth_key k [] = none
by_auth_key k (row ∷ rows) = if row.auth_key_id == k then some row else by_auth_key k rows

-- The row of a user's device under an auth key id.
abbrev pub IsDeviceOf : Claims → ℕ → List Device → Type 0
IsDeviceOf claims k rows =
    (row : Device) × (by_auth_key k rows ≡ some row)
    × (row.id ≡ claims.device_id)
    × (row.user_id ≡ claims.user_id)

upsert-id :
    (now : ℕ) (d row : Device) (rows : List Device)
    → by_auth_key d.auth_key_id rows ≡ some row
    → (upsert now d rows).0.id ≡ row.id
unfolding upsert
upsert-id now d row [] e = cc
upsert-id now d row (r ∷ rows) e = ground (arith, upsert-id now d row rows)

is_active-upsert :
    (now : ℕ) (d row : Device) (rows : List Device)
    → by_auth_key d.auth_key_id rows ≡ some row
    → is_active row.id (list_for_user row.user_id ((upsert now d rows).1)) ≡ true
unfolding upsert is_active list_for_user
is_active-upsert now d row [] e = cc
is_active-upsert now d row (r ∷ rows) e = ground (arith, is_active-upsert now d row rows)

by_auth_key-revoke :
    (now user device k : ℕ) (row : Device) (rows : List Device)
    → by_auth_key k rows ≡ some row
    → (row1 : Device) × (by_auth_key k ((revoke now user device rows).1) ≡ some row1)
      × (row1.id ≡ row.id)
      × (row1.user_id ≡ row.user_id)
unfolding revoke revoked
by_auth_key-revoke now user device k row [] e = absurd (ground arith)
by_auth_key-revoke now user device k row (r ∷ rows) e =
    elim (Bool-cases (r.id == device && (r.user_id == user && not (is_some r.revoked_at)))) [
      | inl goes ↦ elim (Bool-cases (r.auth_key_id == k)) [
        | inl hit ↦
            let same : r ≡ row = ground arith in
            rw (goes, hit) (revoked now r, refl, ap (λ d. d.id) same, ap (λ d. d.user_id) same)
        | inr other ↦
            rw (goes, other) (by_auth_key-revoke now user device k row rows (ground arith))
      ]
      | inr stays ↦ elim (Bool-cases (r.auth_key_id == k)) [
        | inl hit ↦
            let same : r ≡ row = ground arith in
            rw (stays, hit) (r, refl, ap (λ d. d.id) same, ap (λ d. d.user_id) same)
        | inr other ↦
            rw (stays, other) (by_auth_key-revoke now user device k row rows (ground arith))
      ]
    ]

resolve_token_activates :
    (now new_id k : ℕ) (claims : Claims) (db : Db) (u : User)
    → (k == 0) ≡ false
    → get_by_id claims.user_id db.users ≡ some u
    → u.banned ≡ false
    → IsDeviceOf claims k db.devices
    → (db1 : Db) × (handle_resolve_token now new_id (some claims) k db ≡ ok (claims, db1))
      × (handle_refresh (some claims) db1 ≡ ok claims)
unfolding handle_resolve_token handle_refresh
resolve_token_activates now new_id k claims db u some_key known allowed (row, found, id, user) =
    let d : Device = record {
      id = new_id;
      user_id = u.id;
      auth_key_id = k;
      push_token = none;
      last_seen_at = now;
      revoked_at = none;
    } in
    let same_id : (upsert now d db.devices).0.id ≡ claims.device_id =
      upsert-id now d row db.devices found ∙ id in
    let active : is_active claims.device_id
          (list_for_user claims.user_id ((upsert now d db.devices).1))
        ≡ true =
      rw (← id, ← user) (is_active-upsert now d row db.devices found) in
    (
      record db { devices = (upsert now d db.devices).1 },
      rw (known, allowed, some_key, same_id) refl,
      rw (handle_refresh, active, known, allowed) refl,
    )

-- A revocation does not outlive the access token: after a user has revoked a device, a token of that device
-- that still verifies is resolved with the device's auth key, and from then on refreshes of its
-- tokens succeed again. The account exists and is not banned.
pub resolve_token_reinstates :
    (now later new_id k : ℕ) (claims : Claims) (db db1 : Db) (u : User)
    → (k == 0) ≡ false
    → get_by_id claims.user_id db.users ≡ some u
    → u.banned ≡ false
    → IsDeviceOf claims k db.devices
    → handle_revoke_device now claims claims.device_id db ≡ ok db1
    → (handle_refresh (some claims) db1 ≡ err unauthorized)
      × (db2 : Db) × (handle_resolve_token later new_id (some claims) k db1 ≡ ok (claims, db2))
      × (handle_refresh (some claims) db2 ≡ ok claims)
unfolding handle_revoke_device
resolve_token_reinstates now later new_id k claims db db1 u some_key known allowed
      (row, found, id, user) e =
    let rows = (revoke now claims.user_id claims.device_id db.devices).1 in
    let same : record db { devices = rows } ≡ db1 = ground arith in
    let (row1, found1, id1, user1) =
      by_auth_key-revoke now claims.user_id claims.device_id k row db.devices found in
    let users : db1.users ≡ db.users = ap (λ (x : Db). x.users) (sym same) in
    let devices : rows ≡ db1.devices = ap (λ (x : Db). x.devices) same in
    let (db2, resolved, refreshed) =
      resolve_token_activates later new_id k claims db1 u some_key
        (ap (get_by_id claims.user_id) users ∙ known) allowed
        (row1, subst (λ l. by_auth_key k l ≡ some row1) devices found1, id1 ∙ id, user1 ∙ user) in
    (
      unfold revoke_each in
          handle_refresh-handle_revoke_device now claims.device_id claims claims [] db db1 e refl
            refl,
      db2,
      resolved,
      refreshed,
    )

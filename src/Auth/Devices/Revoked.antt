-- ===== src/Auth/Devices/Revoked.antt =====
-- Refreshes after revocations of devices.
use messaging_app.Prelude.{
  List, Result-cases, [], arith, err, false, inl, inr, ok, refl, some, subst, ℕ, ◌∷◌, ◌≡◌,
}
use messaging_app.Auth.{Claims, Db, Device, unauthorized}
use messaging_app.Auth.Devices.{
  handle_refresh, handle_revoke_device, is_active, list_for_user, revoke, revoked,
}

is_active-revoke :
    (now user device : ℕ) (rows : List Device)
    → is_active device (list_for_user user ((revoke now user device rows).1)) ≡ false
unfolding is_active list_for_user revoke revoked
is_active-revoke now user device [] = refl
is_active-revoke now user device (row ∷ rows) =
    ground (arith, is_active-revoke now user device rows)

-- A revocation makes no device active.
is_active-revoke_any :
    (now user device u d : ℕ) (rows : List Device)
    → is_active device (list_for_user user rows) ≡ false
    → is_active device (list_for_user user ((revoke now u d rows).1)) ≡ false
unfolding is_active list_for_user revoke revoked
is_active-revoke_any now user device u d [] gone = refl
is_active-revoke_any now user device u d (row ∷ rows) gone =
    ground (arith, is_active-revoke_any now user device u d rows)

-- Revocations one after the other, each with its time, the caller and the device; a refused one
-- changes nothing.
unfoldable pub revoke_each : List (ℕ × Claims × ℕ) → Db → Db
revoke_each [] db = db
revoke_each ((now, claims, device) ∷ calls) db = elim (handle_revoke_device now claims device db) [
  | err e ↦ revoke_each calls db
  | ok db1 ↦ revoke_each calls db1
]

is_active-handle_revoke_device :
    (now device user d : ℕ) (claims : Claims) (db db1 : Db)
    → handle_revoke_device now claims d db ≡ ok db1
    → is_active device (list_for_user user db.devices) ≡ false
    → is_active device (list_for_user user db1.devices) ≡ false
unfolding handle_revoke_device
is_active-handle_revoke_device now device user d claims db db1 e gone =
    let same : (revoke now claims.user_id d db.devices).1 ≡ db1.devices = ground arith in
    subst (λ rows. is_active device (list_for_user user rows) ≡ false) same
      (is_active-revoke_any now user device claims.user_id d db.devices gone)

is_active-revoke_each :
    (device user : ℕ) (calls : List (ℕ × Claims × ℕ)) (db : Db)
    → is_active device (list_for_user user db.devices) ≡ false
    → is_active device (list_for_user user (revoke_each calls db).devices) ≡ false
unfolding revoke_each
is_active-revoke_each device user [] db gone = gone
is_active-revoke_each device user ((now, claims, d) ∷ calls) db gone =
    elim (Result-cases (handle_revoke_device now claims d db)) [
      | inl (bad, refused) ↦
          rw (revoke_each, refused) (is_active-revoke_each device user calls db gone)
      | inr (db1, done) ↦
          rw (revoke_each, done)
            (is_active-revoke_each device user calls db1
              (is_active-handle_revoke_device now device user d claims db db1 done gone))
    ]

-- Once a user has revoked a device, and after whatever further revocations by whatever users, a refresh
-- of a token of the user for that device is refused. Other requests in between are not covered.
pub handle_refresh-handle_revoke_device :
    (now device : ℕ) (claims token : Claims) (calls : List (ℕ × Claims × ℕ)) (db db1 : Db)
    → handle_revoke_device now claims device db ≡ ok db1
    → token.user_id ≡ claims.user_id
    → token.device_id ≡ device
    → handle_refresh (some token) (revoke_each calls db1) ≡ err unauthorized
unfolding handle_refresh
handle_refresh-handle_revoke_device now device claims token calls db db1 e same_user same_device =
    let rows = (revoke now claims.user_id device db.devices).1 in
    let same : rows ≡ db1.devices = unfold handle_revoke_device in ground arith in
    let gone : is_active device (list_for_user claims.user_id db1.devices) ≡ false =
      subst (λ r. is_active device (list_for_user claims.user_id r) ≡ false) same
        (is_active-revoke now claims.user_id device db.devices) in
    let later = is_active-revoke_each device claims.user_id calls db1 gone in
    rw (handle_refresh, same_user, same_device, later) refl

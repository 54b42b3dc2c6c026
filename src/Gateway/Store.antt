-- ===== src/Gateway/Store.antt =====
-- services/realtime-gateway/internal/sessionstore.go: keys and bindings in Redis. Base64 and the JSON of a
-- binding are left out: the store holds the bytes and the pair.
use messaging_app.Prelude.{Result, err, none, not, ok, refuse, some, ℕ, ◌==◌, ◌>>=◌, ◌>>◌}
use messaging_app.Gateway.{Env, Failure, Shared, lift, no_session, store_failed}
use messaging_app.Mtproto.Keys.{AuthKey, new_auth_key}
use messaging_app.Prelude.Assoc.{erase, insert, lookup}

-- `Save`
unfoldable pub save : Env → AuthKey → Shared → Result Failure Shared
save env key shared = do
  refuse (not env.saves) store_failed
  ok (record shared { keys = insert key.id key.raw shared.keys })

-- `Load`: the id must be that of the bytes.
unfoldable pub load : Env → ℕ → Shared → Result Failure AuthKey
load env id shared = do
  refuse (not env.loads) store_failed
  raw ← elim (lookup id shared.keys) [ none ↦ err no_session | some b ↦ ok b ]
  key ← lift (new_auth_key env.crypto raw)
  refuse (not (key.id == id)) store_failed
  ok key

-- `SaveBinding`
unfoldable pub save_binding : Env → ℕ → ℕ → ℕ → Shared → Result Failure Shared
save_binding env id user device shared = do
  refuse (not env.saves) store_failed
  ok (record shared { bindings = insert id (user, device) shared.bindings })

-- `LoadBinding`
unfoldable pub load_binding : Env → ℕ → Shared → Result Failure (ℕ × ℕ)
load_binding env id shared = do
  refuse (not env.loads) store_failed
  elim (lookup id shared.bindings) [ none ↦ err no_session | some b ↦ ok b ]

-- `Delete`
unfoldable pub delete : Env → ℕ → Shared → Result Failure Shared
delete env id shared = do
  refuse (not env.saves) store_failed
  ok (record shared { keys = erase id shared.keys; bindings = erase id shared.bindings })

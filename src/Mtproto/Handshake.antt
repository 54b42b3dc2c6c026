-- ===== src/Mtproto/Handshake.antt =====
-- pkg/mtproto/handshake_types.go: the messages of the handshake, and the fixed layout of the data that
-- travels under RSA.
pub mod Group
pub mod Inner
pub mod Layout
pub mod Phases
pub mod Secret
pub mod Agreement
mod Tests
pub mod Server
pub mod Client
use messaging_app.Prelude.{
  List, Option, Result, err, length, none, not, ok, refuse, some, ℕ, ◌++◌, ◌==◌, ◌>>=◌, ◌>>◌,
}
use messaging_app.Mtproto.{Error, bad_inner_size, bad_json}
use messaging_app.Prelude.Bytes.{get_be, put_be, slice}

-- `ResPQ`
pub record ResPq : Type 0 where
  pub nonce : List ℕ
  pub server_nonce : List ℕ
  pub pq : ℕ
  pub rsa_fingerprints : List ℕ

-- `ReqDHParams`
pub record ReqDhParams : Type 0 where
  pub nonce : List ℕ
  pub server_nonce : List ℕ
  pub p : ℕ
  pub q : ℕ
  pub rsa_fingerprint : ℕ
  pub encrypted_data : List ℕ

-- `PQInnerData`
pub record PqInnerData : Type 0 where
  pub pq : ℕ
  pub p : ℕ
  pub q : ℕ
  pub nonce : List ℕ
  pub server_nonce : List ℕ
  pub new_nonce : List ℕ

-- `pqInnerDataSize`
abbrev pub pq_inner_data_size : ℕ
pq_inner_data_size = 88

-- `MarshalBinary`
unfoldable pub marshal_binary : PqInnerData → List ℕ
marshal_binary d =
    put_be 8 d.pq
    ++ (put_be 8 d.p ++ (put_be 8 d.q ++ (d.nonce ++ (d.server_nonce ++ d.new_nonce))))

-- `UnmarshalBinary`
unfoldable pub unmarshal_binary : List ℕ → Result Error PqInnerData
unmarshal_binary b = do
  refuse (not (length b == pq_inner_data_size)) bad_inner_size
  ok (record {
    pq = get_be (slice 0 8 b);
    p = get_be (slice 8 8 b);
    q = get_be (slice 16 8 b);
    nonce = slice 24 16 b;
    server_nonce = slice 40 16 b;
    new_nonce = slice 56 32 b;
  })

-- `ServerDHParams`
pub record ServerDhParams : Type 0 where
  pub nonce : List ℕ
  pub server_nonce : List ℕ
  pub encrypted_answer : List ℕ

-- `ServerDHInnerData`
pub record ServerDhInnerData : Type 0 where
  pub nonce : List ℕ
  pub server_nonce : List ℕ
  pub g : ℕ
  pub dh_prime : List ℕ
  pub g_a : List ℕ
  pub server_time : ℕ

-- `SetClientDHParams`
pub record SetClientDhParams : Type 0 where
  pub nonce : List ℕ
  pub server_nonce : List ℕ
  pub encrypted_data : List ℕ

-- `ClientDHInnerData`
pub record ClientDhInnerData : Type 0 where
  pub nonce : List ℕ
  pub server_nonce : List ℕ
  pub retry_id : ℕ
  pub g_b : List ℕ

-- `DHGenOK`
pub record DhGenOk : Type 0 where
  pub nonce : List ℕ
  pub server_nonce : List ℕ
  pub new_nonce_hash : List ℕ

-- `json.Marshal` and `json.Unmarshal` of encoding/json at the two types of inner data; `none` is an
-- error.
pub record Json : Type 0 where
  pub marshal_server : ServerDhInnerData → Option (List ℕ)
  pub unmarshal_server : List ℕ → Option ServerDhInnerData
  pub marshal_client : ClientDhInnerData → Option (List ℕ)
  pub unmarshal_client : List ℕ → Option ClientDhInnerData

-- `encodeInner`
unfoldable pub encode_inner : {A : Type 0} → (A → Option (List ℕ)) → A → Result Error (List ℕ)
encode_inner marshal v = elim (marshal v) [ none ↦ err bad_json | some b ↦ ok b ]

-- `decodeInner`
unfoldable pub decode_inner : {A : Type 0} → (List ℕ → Option A) → List ℕ → Result Error A
decode_inner unmarshal b = elim (unmarshal b) [ none ↦ err bad_json | some v ↦ ok v ]

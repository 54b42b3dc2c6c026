-- ===== src/Auth.antt =====
-- services/auth-service/internal/service.go and pkg/pgstore/users.go: the tables that sign-in works on.
pub mod Devices
pub mod SignIn
mod Tests
use messaging_app.Prelude.{Bool, List, Option, ℕ}

-- The kinds of error that a handler answers with.
pub data Failure : Type 0 where
  bad_request unauthorized forbidden not_found flood_wait unavailable internal : Failure

-- `OTPChallenge`; `consumed_at` is `none` where it is NULL.
pub record Challenge : Type 0 where
  pub phone : ℕ
  pub code_hash : List ℕ
  pub attempts : ℕ
  pub expires_at : ℕ
  pub consumed_at : Option ℕ

-- The columns of `Device` that decide on sessions.
pub record Device : Type 0 where
  pub id : ℕ
  pub user_id : ℕ
  pub auth_key_id : ℕ
  pub push_token : Option (List ℕ)
  pub last_seen_at : ℕ
  pub revoked_at : Option ℕ

-- The columns of `User` that sign-in reads; a phone number stands for its digits.
pub record User : Type 0 where
  pub id : ℕ
  pub phone : ℕ
  pub display_name : List ℕ
  pub banned : Bool
  pub deleted : Bool

-- The tables.
pub record Db : Type 0 where
  pub challenges : List (ℕ × Challenge)
  pub users : List User
  pub devices : List Device

-- `Claims` of a token
pub record Claims : Type 0 where
  pub user_id : ℕ
  pub device_id : ℕ

-- ===== src/Chat.antt =====
-- services/chat-service: roles in a chat, the privilege rules, and the handlers that change members.
pub mod Authz
pub mod Members
mod Tests
use messaging_app.Prelude.{Bool, false, not, true, ℕ, ◌&&◌}

-- `ChatType` of pkg/pgstore/models.go
pub data ChatType : Type 0 where
  private group channel : ChatType

-- `MemberRole`, a string there; `other` is any string that is no role.
pub data Role : Type 0 where
  owner admin member restricted other : Role

-- The kinds of answer that a handler refuses with.
pub data Refusal : Type 0 where
  forbidden bad_request not_found conflict : Refusal

-- `Member`: a row of chat_members; `left` says that `LeftAt` is set.
pub record Member : Type 0 where
  pub user_id : ℕ
  pub role : Role
  pub left : Bool

abbrev pub is_owner_role : Role → Bool
is_owner_role owner = true
is_owner_role _ = false

abbrev pub is_admin_role : Role → Bool
is_admin_role admin = true
is_admin_role _ = false

-- The roles that a handler gives: `RoleMember`, `RoleAdmin` and `RoleRestricted`.
abbrev pub is_given : Role → Bool
is_given admin = true
is_given member = true
is_given restricted = true
is_given _ = false

-- The test that stands in most rules: neither `RoleOwner` nor `RoleAdmin`.
abbrev pub is_ordinary : Role → Bool
is_ordinary r = not (is_owner_role r) && not (is_admin_role r)

abbrev pub is_private : ChatType → Bool
is_private private = true
is_private _ = false

-- `==` of roles; strings that are no roles are not told apart, and no handler compares them.
abbrev pub same_role : Role → Role → Bool
same_role owner owner = true
same_role admin admin = true
same_role member member = true
same_role restricted restricted = true
same_role other other = true
same_role _ _ = false

-- ===== src/Chat/Members.antt =====
-- services/chat-service/internal/chats.go with the statements of pkg/pgstore/chats.go that it runs: the
-- members of one chat. Failures of the database are left out, and so are caches, updates and audits.
pub mod Owner
pub mod Count
pub mod Escalation
use messaging_app.Prelude.{
  Bool, List, Option, Result, err, false, if◌then◌else◌, leb, none, not, ok, refuse, some, true, ℕ,
  ◌+◌, ◌-◌, ◌==◌, ◌>>=◌, ◌>>◌,
}
use messaging_app.Chat.{
  ChatType, Member, Refusal, Role, bad_request, conflict, forbidden, is_given, is_ordinary,
  is_owner_role, is_private, member, not_found, same_role,
}
use messaging_app.Chat.Authz.{can_delete_chat, can_remove_member, can_set_role}
use messaging_app.Prelude.Assoc.{insert, lookup}

-- A chat with its rows of chat_members, by user; a deleted one is not found any more.
pub record Chat : Type 0 where
  pub kind : ChatType
  pub members : List (ℕ × Member)
  pub member_count : ℕ
  pub deleted : Bool

-- `Members.Get`
unfoldable pub get_member : ℕ → Chat → Result Refusal Member
get_member user c = elim (lookup user c.members) [ none ↦ err not_found | some m ↦ ok m ]

-- `requireMember`
unfoldable pub require_member : ℕ → Chat → Result Refusal Member
require_member user c = do m ← get_member user c; refuse m.left not_found; ok m

-- `Chats.Get`, as far as the handlers look at it.
unfoldable pub get_chat : Chat → Result Refusal Unit
get_chat c = refuse c.deleted not_found

-- `Members.Add`: a new row, or the row of a member who has left is taken up again.
unfoldable pub add : ℕ → Role → Chat → Chat
add user role c =
    let joined = record c {
      members = insert user (record { user_id = user; role = role; left = false }) c.members;
      member_count = c.member_count + 1;
    } in
    elim (lookup user c.members) [ none ↦ joined | some m ↦ if m.left then joined else c ]

-- `Members.Remove`
unfoldable pub remove : ℕ → Chat → Result Refusal Chat
remove user c = elim (lookup user c.members) [
  | none ↦ err not_found
  | some m ↦
      if m.left
      then err not_found
      else ok (record c {
        members = insert user (record m { left = true }) c.members;
        member_count = c.member_count - 1;
      })
]

-- `Members.SetRole`
unfoldable pub set_role : ℕ → Role → Chat → Result Refusal Chat
set_role user role c = elim (lookup user c.members) [
  | none ↦ err not_found
  | some m ↦
      if m.left
      then err not_found
      else ok (record c { members = insert user (record m { role = role }) c.members })
]

-- `orDefault(req.Role, RoleMember)`
unfoldable pub get_or_member : Option Role → Role
get_or_member none = member
get_or_member (some r) = r

-- `handleAddMember`: `known` is whether `Users.GetByID` finds the user, and no role asked for is
-- `RoleMember`. `max_members` is `Cfg.MaxGroupMembers`.
unfoldable pub handle_add_member : (ℕ → Bool) → ℕ → ℕ → ℕ → Option Role → Chat → Result Refusal Chat
handle_add_member known max_members actor user asked c = do
  refuse (user == 0) bad_request
  m ← require_member actor c
  get_chat c
  refuse (is_private c.kind) bad_request
  refuse (is_ordinary m.role) forbidden
  refuse (leb max_members c.member_count) conflict
  refuse (not (known user)) not_found
  let role = get_or_member asked
  refuse (not (is_given role)) bad_request
  ok (add user role c)

-- `handleRemoveMember`
unfoldable pub handle_remove_member : ℕ → ℕ → Chat → Result Refusal Chat
handle_remove_member actor user c = do
  m ← require_member actor c
  target ← get_member user c
  can_remove_member m target
  remove user c

-- `handleLeave`
unfoldable pub handle_leave : ℕ → Chat → Result Refusal Chat
handle_leave actor c = do
  m ← require_member actor c
  refuse (is_owner_role m.role) conflict
  remove actor c

-- `handleSetRole`
unfoldable pub handle_set_role : ℕ → ℕ → Role → Chat → Result Refusal Chat
handle_set_role actor user role c = do
  m ← require_member actor c
  target ← get_member user c
  can_set_role m target role
  if same_role target.role role then ok c else set_role user role c

-- `handleDeleteChat`
unfoldable pub handle_delete_chat : ℕ → Chat → Result Refusal Chat
handle_delete_chat actor c = do
  m ← require_member actor c
  get_chat c
  can_delete_chat m c.kind
  ok (record c { deleted = true })

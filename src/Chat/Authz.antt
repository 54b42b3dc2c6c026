-- ===== src/Chat/Authz.antt =====
-- services/chat-service/internal/authz.go: who may do what in a chat.
pub mod Rank
use messaging_app.Prelude.{
  Bool, Result, err, false, if◌then◌else◌, not, ok, refuse, true, ℕ, ◌&&◌, ◌==◌, ◌>>=◌, ◌>>◌, ◌||◌,
}
use messaging_app.Chat.{
  ChatType, Member, Refusal, Role, bad_request, channel, forbidden, group, is_admin_role, is_given,
  is_ordinary, is_owner_role, private, restricted,
}

-- `canRemoveMember`
unfoldable pub can_remove_member : Member → Member → Result Refusal Unit
can_remove_member actor target = do
  refuse (is_ordinary actor.role) forbidden
  refuse (is_owner_role target.role) forbidden
  refuse (is_admin_role target.role && not (is_owner_role actor.role)) forbidden

-- `canSetRole`
unfoldable pub can_set_role : Member → Member → Role → Result Refusal Unit
can_set_role actor target to = do
  refuse (not (is_given to)) bad_request
  refuse (actor.user_id == target.user_id) forbidden
  refuse (is_ordinary actor.role) forbidden
  refuse (is_owner_role target.role) forbidden
  refuse (not (is_owner_role actor.role) && (is_admin_role to || is_admin_role target.role))
      forbidden

-- `canDeleteChat`
unfoldable pub can_delete_chat : Member → ChatType → Result Refusal Unit
can_delete_chat actor private = err bad_request
can_delete_chat actor group = refuse (not (is_owner_role actor.role)) forbidden
can_delete_chat actor channel = refuse (not (is_owner_role actor.role)) forbidden

-- `canDeleteMessage`: whether it is a moderation action.
unfoldable pub can_delete_message : Member → ℕ → Result Refusal Bool
can_delete_message actor sender_id =
    if sender_id == actor.user_id
    then ok false
    else if is_ordinary actor.role
    then err forbidden
    else ok true

-- The answer of `Members.CanPost` of pkg/pgstore/chats.go for an active member.
unfoldable pub can_post : Role → ChatType → Bool
can_post restricted kind = false
can_post role channel = is_owner_role role || is_admin_role role
can_post role _ = true

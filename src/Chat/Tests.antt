-- ===== src/Chat/Tests.antt =====
-- Chats of a few members.
use messaging_app.Prelude.{
  Bool, [], arith, err, false, ok, refl, some, true, ℕ, ◌<◌, ◌↔◌, ◌∷◌, ◌≡◌, ◌≢◌, ◌≤◌,
}
use messaging_app.Chat.{Member, Role, admin, forbidden, group, member, owner}
use messaging_app.Chat.Authz.{can_remove_member, can_set_role}
use messaging_app.Chat.Authz.Rank.{can_remove_member-rank, can_set_role-rank}
use messaging_app.Chat.Members.{
  Chat, get_member, handle_add_member, handle_remove_member, handle_set_role, remove,
  require_member,
}
use messaging_app.Chat.Members.Count.{IsCounted, IsCounted-Steps, active}
use messaging_app.Chat.Members.Escalation.{admin_makes_admin}
use messaging_app.Chat.Members.Owner.{Steps, is_owner, is_owner-Steps, none_yet, removed, then_step}
use messaging_app.Prelude.Assoc.{insert, lookup}

abbrev row : ℕ → Role → ℕ × Member
row user role = (user, record { user_id = user; role = role; left = false })

abbrev three_members : Chat
three_members = record {
  kind = group;
  members = row 1 owner ∷ row 2 admin ∷ row 3 member ∷ [];
  member_count = 3;
  deleted = false;
}

abbrev two_left : Chat
two_left = record {
  kind = group;
  members =
      row 1 owner ∷ row 2 admin ∷ (3, record { user_id = 3; role = member; left = true }) ∷ [];
  member_count = 2;
  deleted = false;
}

abbrev everybody : ℕ → Bool
everybody u = true

one_removed : Steps everybody 10 three_members two_left
unfolding handle_remove_member require_member get_member can_remove_member remove lookup insert
one_removed = then_step three_members two_left none_yet (removed 2 3 refl)

is_owner-Steps_example : is_owner 1 two_left ≡ is_owner 1 three_members
is_owner-Steps_example = is_owner-Steps everybody 10 1 three_members two_left one_removed

IsCounted-Steps_example : IsCounted 10 two_left
unfolding active
IsCounted-Steps_example =
    IsCounted-Steps everybody 10 three_members two_left
      (record { counts = refl; within = omega arith }) one_removed

can_remove_member-rank_example :
    (can_remove_member (row 2 admin).1 (row 3 member).1 ≡ ok tt) ↔ ((1 ≤ 1) × (0 < 1))
can_remove_member-rank_example = can_remove_member-rank (row 2 admin).1 (row 3 member).1

can_set_role-rank_example :
    (can_set_role (row 1 owner).1 (row 3 member).1 admin ≡ ok tt)
    ↔ ((1 ≤ 2) × (0 < 2) × (1 < 2) × (true ≡ true) × ((row 1 owner).1.user_id ≢ 3))
can_set_role-rank_example = can_set_role-rank (row 1 owner).1 (row 3 member).1 admin

admin_makes_admin_example :
    (handle_set_role 2 3 admin three_members ≡ err forbidden)
    × ((c' : Chat) × (c'' : Chat) × (handle_remove_member 2 3 three_members ≡ ok c')
        × (handle_add_member everybody 10 2 3 (some admin) c' ≡ ok c'')
        × (lookup 3 c''.members ≡ some (record { user_id = 3; role = admin; left = false })))
unfolding lookup
admin_makes_admin_example =
    admin_makes_admin everybody 10 2 3 three_members refl refl (omega arith) (omega arith) refl refl
      refl (omega arith) (omega arith)

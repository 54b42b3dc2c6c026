-- ===== src/Chat/Members/Escalation.antt =====
-- An admin makes admins.
use messaging_app.Prelude.{
  Bool, ap, arith, err, false, leb, ok, refl, some, true, ℕ, ◌+◌, ◌-◌, ◌<◌, ◌==◌, ◌≡◌, ◌≢◌, ◌≤◌,
}
use messaging_app.Chat.{Member, admin, forbidden, is_private, member}
use messaging_app.Chat.Authz.{can_remove_member, can_set_role}
use messaging_app.Chat.Members.{
  Chat, add, get_chat, get_member, get_or_member, handle_add_member, handle_remove_member,
  handle_set_role, remove, require_member,
}
use messaging_app.Prelude.Assoc.{insert, lookup, lookup-insert}

required :
    (user : ℕ) (m : Member) (c : Chat)
    → lookup user c.members ≡ some m
    → m.left ≡ false
    → require_member user c ≡ ok m
unfolding require_member get_member
required user m c found here = ground arith

got : (user : ℕ) (m : Member) (c : Chat) → lookup user c.members ≡ some m → get_member user c ≡ ok m
unfolding get_member
got user m c found = ground arith

-- In a chat that is neither private nor deleted, whose count is at least 1 and within the limit,
-- an admin whom handleSetRole refuses to make an ordinary member an admin may remove that member
-- and add the same user, who is known and not 0, as an admin.
pub admin_makes_admin :
    (known : ℕ → Bool) (max_members actor user : ℕ) (c : Chat)
    → lookup actor c.members ≡ some (record { user_id = actor; role = admin; left = false })
    → lookup user c.members ≡ some (record { user_id = user; role = member; left = false })
    → actor ≢ user
    → user ≢ 0
    → known user ≡ true
    → c.deleted ≡ false
    → is_private c.kind ≡ false
    → c.member_count ≤ max_members
    → 0 < c.member_count
    → (handle_set_role actor user admin c ≡ err forbidden)
      × ((c' : Chat) × (c'' : Chat) × (handle_remove_member actor user c ≡ ok c')
          × (handle_add_member known max_members actor user (some admin) c' ≡ ok c'')
          × (lookup user c''.members
              ≡ some (record { user_id = user; role = admin; left = false })))
unfolding handle_set_role handle_remove_member handle_add_member
admin_makes_admin known max_members actor user c found there differ nonzero knows alive open_chat
      within filled =
    let gone : Member = record { user_id = user; role = member; left = true } in
    let back : Member = record { user_id = user; role = admin; left = false } in
    let c' : Chat = record c {
      members = insert user gone c.members;
      member_count = c.member_count - 1;
    } in
    let c'' : Chat = record c {
      members = insert user back c'.members;
      member_count = c.member_count - 1 + 1;
    } in
    let found' : lookup actor c'.members
        ≡ some (record { user_id = actor; role = admin; left = false }) =
      ground (arith, lookup-insert user actor gone c.members) in
    let there' : lookup user c'.members ≡ some gone =
      ground (arith, lookup-insert user user gone c.members) in
    let room : leb max_members (c.member_count - 1) ≡ false = ground arith in
    let a : Member = record { user_id = actor; role = admin; left = false } in
    let m : Member = record { user_id = user; role = member; left = false } in
    let opens : get_chat c' ≡ ok tt = unfold get_chat in ground arith in
    let nonzero_test : (user == 0) ≡ false = ground arith in
    let actor_found = required actor a c found refl in
    let user_found = got user m c there in
    let actor_found' = required actor a c' found' refl in
    let refused : can_set_role a m admin ≡ err forbidden = unfold can_set_role in ground arith in
    let allowed : can_remove_member a m ≡ ok tt = unfold can_remove_member in refl in
    let removed : remove user c ≡ ok c' = unfold remove in ground arith in
    let added : add user admin c' ≡ c'' = unfold add in ground arith in
    (
      ground arith,
      (
        c',
        c'',
        ground arith,
        rw nonzero_test (
            rw (actor_found', handle_add_member)
              (rw (opens, open_chat, room, knows) (unfold get_or_member in ap ok added))),
        ground (arith, lookup-insert user user back c'.members),
      ),
    )

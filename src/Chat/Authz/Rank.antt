-- ===== src/Chat/Authz/Rank.antt =====
-- The privilege rules as an order of ranks.
use messaging_app.Prelude.{arith, false, ok, refl, true, ℕ, ◌<◌, ◌==◌, ◌↔◌, ◌≡◌, ◌≢◌, ◌≤◌}
use messaging_app.Chat.{
  Member, Role, admin, is_admin_role, is_given, is_ordinary, is_owner_role, member, other, owner,
  restricted,
}
use messaging_app.Chat.Authz.{can_remove_member, can_set_role}

-- Owners stand above admins, and those above everybody else.
abbrev pub rank : Role → ℕ
rank owner = 2
rank admin = 1
rank _ = 0

rank-le : (r : Role) → rank r ≤ 2
rank-le owner = omega arith
rank-le admin = omega arith
rank-le member = omega arith
rank-le restricted = omega arith
rank-le other = omega arith

given_rank : (r : Role) → is_given r ≡ true → rank r ≤ 1
given_rank owner h = cc
given_rank admin h = omega arith
given_rank member h = omega arith
given_rank restricted h = omega arith
given_rank other h = cc

ordinary-rank : (r : Role) → is_ordinary r ≡ (rank r == 0)
ordinary-rank owner = refl
ordinary-rank admin = refl
ordinary-rank member = refl
ordinary-rank restricted = refl
ordinary-rank other = refl

owner-rank : (r : Role) → is_owner_role r ≡ (rank r == 2)
owner-rank owner = refl
owner-rank admin = refl
owner-rank member = refl
owner-rank restricted = refl
owner-rank other = refl

admin-rank : (r : Role) → is_admin_role r ≡ (rank r == 1)
admin-rank owner = refl
admin-rank admin = refl
admin-rank member = refl
admin-rank restricted = refl
admin-rank other = refl

-- The rule for removals: the actor is at least an admin, and outranks the target.
pub can_remove_member-rank :
    (actor target : Member)
    → (can_remove_member actor target ≡ ok tt)
      ↔ ((1 ≤ rank actor.role) × (rank target.role < rank actor.role))
unfolding can_remove_member
can_remove_member-rank actor target =
    rw
      (
        ordinary-rank actor.role,
        owner-rank actor.role,
        owner-rank target.role,
        admin-rank target.role,
      )
      (
        (λ accepted. (ground arith, ground (arith, rank-le actor.role, rank-le target.role))),
        (λ (high, above). ground (arith, rank-le actor.role, rank-le target.role)),
      )

-- The rule for roles: the actor is at least an admin and another user than the target, outranks both
-- the target and the new role, and the new role is member, admin or restricted.
pub can_set_role-rank :
    (actor target : Member) (to : Role)
    → (can_set_role actor target to ≡ ok tt) ↔ (
        (1 ≤ rank actor.role)
        × (rank target.role < rank actor.role)
        × (rank to < rank actor.role)
        × (is_given to ≡ true)
        × (actor.user_id ≢ target.user_id))
unfolding can_set_role
can_set_role-rank actor target to =
    rw
      (
        ordinary-rank actor.role,
        owner-rank actor.role,
        owner-rank target.role,
        admin-rank target.role,
        admin-rank to,
      )
      (
        (λ accepted.
            let given : is_given to ≡ true = ground arith in
            (
              ground arith,
              ground (arith, rank-le actor.role, rank-le target.role),
              ground (arith, rank-le actor.role, given_rank to given),
              given,
              (λ same.
                  let id : (actor.user_id == target.user_id) ≡ true = ground arith in ground arith),
            )),
        (λ (high, above, above_new, given, others).
            let id : (actor.user_id == target.user_id) ≡ false = ground arith in
            ground (arith, rank-le actor.role, rank-le target.role)),
      )

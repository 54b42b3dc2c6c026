-- ===== src/Chat/Members/Owner.antt =====
-- No handler makes, moves or loses the ownership of a chat.
use messaging_app.Prelude.{
  Bool, Bool-cases, Option, Option-cases, Result-cases, arith, false, inl, inr, none, not, ok, refl,
  some, true, ℕ, ◌&&◌, ◌-◌, ◌∙◌, ◌≡◌,
}
use messaging_app.Chat.{
  Member, Role, admin, is_given, is_owner_role, member, other, owner, restricted, same_role,
}
use messaging_app.Chat.Authz.{can_delete_chat, can_remove_member, can_set_role}
use messaging_app.Chat.Members.{
  Chat, add, get_member, get_or_member, handle_add_member, handle_delete_chat, handle_leave,
  handle_remove_member, handle_set_role, remove, require_member, set_role,
}
use messaging_app.Prelude.Assoc.{insert, lookup, lookup-insert}

-- Whether the user is an active member who is the owner.
unfoldable pub is_owner : ℕ → Chat → Bool
is_owner u c = elim (lookup u c.members) [
  | none ↦ false
  | some m ↦ not m.left && is_owner_role m.role
]

-- A request that a handler accepted.
pub data Step (known : ℕ → Bool) (max_members : ℕ) (c c' : Chat) : Type 0 where
  added :
      (actor user : ℕ) (asked : Option Role)
      → handle_add_member known max_members actor user asked c ≡ ok c'
      → Step known max_members c c'
  removed :
      (actor user : ℕ) → handle_remove_member actor user c ≡ ok c' → Step known max_members c c'
  left_chat : (actor : ℕ) → handle_leave actor c ≡ ok c' → Step known max_members c c'
  role_set :
      (actor user : ℕ) (role : Role)
      → handle_set_role actor user role c ≡ ok c'
      → Step known max_members c c'
  chat_deleted : (actor : ℕ) → handle_delete_chat actor c ≡ ok c' → Step known max_members c c'

-- Any number of accepted requests.
pub data Steps (known : ℕ → Bool) (max_members : ℕ) (c : Chat) : Chat → Type 0 where
  none_yet : Steps known max_members c c
  then_step :
      (d e : Chat)
      → Steps known max_members c d
      → Step known max_members d e
      → Steps known max_members c e

given_owner : (r : Role) → is_given r ≡ true → is_owner_role r ≡ false
given_owner owner h = cc
given_owner admin h = refl
given_owner member h = refl
given_owner restricted h = refl
given_owner other h = refl

module _ (u user : ℕ) (c c' : Chat) where
  is_owner-add :
      (role : Role) → is_owner_role role ≡ false → is_owner u (add user role c) ≡ is_owner u c
  unfolding is_owner add
  is_owner-add role lesser =
      let row : Member = record { user_id = user; role = role; left = false } in
      elim (Option-cases (lookup user c.members)) [
        | inl fresh ↦ ground (arith, lookup-insert user u row c.members)
        | inr (m, there) ↦ ground (arith, lookup-insert user u row c.members)
      ]

  is_owner-remove :
      (m : Member)
      → lookup user c.members ≡ some m
      → is_owner_role m.role ≡ false
      → remove user c ≡ ok c'
      → is_owner u c' ≡ is_owner u c
  unfolding is_owner remove
  is_owner-remove m there lesser done =
      let row = record m { left = true } in
      let same : c'
          ≡ record c { members = insert user row c.members; member_count = c.member_count - 1 } =
        ground arith in
      rw same (ground (arith, lookup-insert user u row c.members))

  is_owner-set_role :
      (m : Member) (role : Role)
      → lookup user c.members ≡ some m
      → is_owner_role m.role ≡ false
      → is_owner_role role ≡ false
      → set_role user role c ≡ ok c'
      → is_owner u c' ≡ is_owner u c
  unfolding is_owner set_role
  is_owner-set_role m role there lesser lesser' done =
      let row = record m { role = role } in
      let same : c' ≡ record c { members = insert user row c.members } = ground arith in
      rw same (ground (arith, lookup-insert user u row c.members))

is_owner-Step :
    (known : ℕ → Bool) (max_members u : ℕ) (c c' : Chat)
    → Step known max_members c c'
    → is_owner u c' ≡ is_owner u c
unfolding handle_add_member handle_remove_member handle_leave handle_set_role handle_delete_chat
is_owner-Step known max_members u c c' (added actor user asked done) =
    let role = get_or_member asked in
    elim (Result-cases (require_member actor c)) [
      | inl (e, fails) ↦ absurd (ground arith)
      | inr (m, found) ↦
          let given : is_given role ≡ true = ground arith in
          let same : c' ≡ add user role c = ground arith in
          rw same (is_owner-add u user c c' role (given_owner role given))
    ]
is_owner-Step known max_members u c c' (removed actor user done) =
    elim (Result-cases (require_member actor c)) [
      | inl (e, fails) ↦ absurd (ground arith)
      | inr (a, found) ↦ elim (Option-cases (lookup user c.members)) [
        | inl stranger ↦ absurd (unfold get_member in ground arith)
        | inr (m, there) ↦
            let lesser : is_owner_role m.role ≡ false =
              unfold get_member can_remove_member in ground arith in
            is_owner-remove u user c c' m there lesser
              (unfold get_member can_remove_member in ground arith)
      ]
    ]
is_owner-Step known max_members u c c' (left_chat actor done) =
    elim (Option-cases (lookup actor c.members)) [
      | inl stranger ↦ absurd (unfold require_member get_member in ground arith)
      | inr (m, there) ↦
          let lesser : is_owner_role m.role ≡ false =
            unfold require_member get_member in ground arith in
          is_owner-remove u actor c c' m there lesser
            (unfold require_member get_member in ground arith)
    ]
is_owner-Step known max_members u c c' (role_set actor user role done) =
    elim (Result-cases (require_member actor c)) [
      | inl (e, fails) ↦ absurd (ground arith)
      | inr (a, found) ↦ elim (Option-cases (lookup user c.members)) [
        | inl stranger ↦ absurd (unfold get_member in ground arith)
        | inr (m, there) ↦
            let given : is_given role ≡ true = unfold get_member can_set_role in ground arith in
            let lesser : is_owner_role m.role ≡ false =
              unfold get_member can_set_role in ground arith in
            elim (Bool-cases (same_role m.role role)) [
              | inl same ↦
                  let unchanged : c' ≡ c = unfold get_member can_set_role in ground arith in
                  rw unchanged refl
              | inr changes ↦
                  is_owner-set_role u user c c' m role there lesser (given_owner role given)
                    (unfold get_member can_set_role in ground arith)
            ]
      ]
    ]
is_owner-Step known max_members u c c' (chat_deleted actor done) =
    elim (Result-cases (require_member actor c)) [
      | inl (e, fails) ↦ absurd (ground arith)
      | inr (a, found) ↦
          let same : c' ≡ record c { deleted = true } = ground (arith, can_delete_chat a c.kind) in
          rw same (unfold is_owner in refl)
    ]

-- Whoever asks for whatever, and however many requests are accepted, each user is the owner after them
-- exactly if that user was the owner before.
pub is_owner-Steps :
    (known : ℕ → Bool) (max_members u : ℕ) (c d : Chat)
    → Steps known max_members c d
    → is_owner u d ≡ is_owner u c
is_owner-Steps known max_members u c d none_yet = refl
is_owner-Steps known max_members u c last (then_step d e steps step) =
    is_owner-Step known max_members u d e step ∙ is_owner-Steps known max_members u c d steps

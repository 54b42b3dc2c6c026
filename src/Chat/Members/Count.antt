-- ===== src/Chat/Members/Count.antt =====
-- The member count of a chat.
use messaging_app.Prelude.{
  Bool, Bool-cases, List, Option, Option-cases, Result-cases, [], arith, false, if◌then◌else◌, inl,
  inr, none, ok, some, true, ℕ, ◌+◌, ◌-◌, ◌<◌, ◌∷◌, ◌≡◌, ◌≤◌,
}
use messaging_app.Chat.{Member, Role, same_role}
use messaging_app.Chat.Authz.{can_delete_chat, can_remove_member, can_set_role}
use messaging_app.Chat.Members.{
  Chat, add, get_member, get_or_member, handle_add_member, handle_delete_chat, handle_leave,
  handle_remove_member, handle_set_role, remove, require_member, set_role,
}
use messaging_app.Chat.Members.Owner.{
  Step, Steps, added, chat_deleted, left_chat, none_yet, removed, role_set, then_step,
}
use messaging_app.Prelude.Assoc.{insert, lookup}

-- The members who have not left.
unfoldable pub active : List (ℕ × Member) → ℕ
active [] = 0
active ((u, m) ∷ rows) = (if m.left then 0 else 1) + active rows

-- One for an active row, and nothing for none.
unfoldable pub weight : Option Member → ℕ
weight none = 0
weight (some m) = if m.left then 0 else 1

active-insert :
    (u : ℕ) (m : Member) (rows : List (ℕ × Member))
    → active (insert u m rows) + weight (lookup u rows) ≡ active rows + weight (some m)
unfolding active weight insert lookup
active-insert u m [] = ground arith
active-insert u m ((v, n) ∷ rows) = ground (arith, active-insert u m rows)

-- The count is the number of active members, and does not exceed the limit.
pub record IsCounted (max_members : ℕ) (c : Chat) : Type 0 where
  pub counts : c.member_count ≡ active c.members
  pub within : c.member_count ≤ max_members

IsCounted-add :
    (max_members user : ℕ) (role : Role) (c : Chat)
    → IsCounted max_members c
    → c.member_count < max_members
    → IsCounted max_members (add user role c)
unfolding add
IsCounted-add max_members user role c t room =
    let row : Member = record { user_id = user; role = role; left = false } in
    let sum = active-insert user row c.members in
    elim (Option-cases (lookup user c.members)) [
      | inl fresh ↦ record {
        counts = unfold weight in ground (arith, sum, t.counts);
        within = unfold weight in ground (arith, sum, t.counts);
      }
      | inr (m, there) ↦ record {
        counts = unfold weight in ground (arith, sum, t.counts);
        within = unfold weight in ground (arith, sum, t.within);
      }
    ]

IsCounted-remove :
    (max_members user : ℕ) (c c' : Chat)
    → IsCounted max_members c
    → remove user c ≡ ok c'
    → IsCounted max_members c'
unfolding remove
IsCounted-remove max_members user c c' t done = elim (Option-cases (lookup user c.members)) [
  | inl stranger ↦ absurd (ground arith)
  | inr (m, there) ↦
      let row = record m { left = true } in
      let sum = active-insert user row c.members in
      let same : c'
          ≡ record c { members = insert user row c.members; member_count = c.member_count - 1 } =
        ground arith in
      let there_yet : m.left ≡ false = ground arith in
      rw same (record {
        counts = unfold weight in ground (arith, sum, t.counts);
        within = omega (arith, t.within);
      })
]

IsCounted-set_role :
    (max_members user : ℕ) (role : Role) (c c' : Chat)
    → IsCounted max_members c
    → set_role user role c ≡ ok c'
    → IsCounted max_members c'
unfolding set_role
IsCounted-set_role max_members user role c c' t done = elim (Option-cases (lookup user c.members)) [
  | inl stranger ↦ absurd (ground arith)
  | inr (m, there) ↦
      let row = record m { role = role } in
      let sum = active-insert user row c.members in
      let same : c' ≡ record c { members = insert user row c.members } = ground arith in
      rw same
        (record { counts = unfold weight in ground (arith, sum, t.counts); within = t.within })
]

IsCounted-Step :
    (known : ℕ → Bool) (max_members : ℕ) (c c' : Chat)
    → IsCounted max_members c
    → Step known max_members c c'
    → IsCounted max_members c'
unfolding handle_add_member handle_remove_member handle_leave handle_set_role handle_delete_chat
IsCounted-Step known max_members c c' t (added actor user asked done) =
    elim (Result-cases (require_member actor c)) [
      | inl (e, fails) ↦ absurd (ground arith)
      | inr (m, found) ↦
          let room : c.member_count < max_members = ground arith in
          let same : c' ≡ add user (get_or_member asked) c = ground arith in
          rw same (IsCounted-add max_members user (get_or_member asked) c t room)
    ]
IsCounted-Step known max_members c c' t (removed actor user done) =
    elim (Result-cases (require_member actor c)) [
      | inl (e, fails) ↦ absurd (ground arith)
      | inr (a, found) ↦ elim (Result-cases (get_member user c)) [
        | inl (e, fails) ↦ absurd (ground arith)
        | inr (m, there) ↦
            IsCounted-remove max_members user c c' t (elim (Result-cases (can_remove_member a m)) [
              | inl (e, fails) ↦ absurd (ground arith)
              | inr (x, allowed) ↦ ground arith
            ])
      ]
    ]
IsCounted-Step known max_members c c' t (left_chat actor done) =
    elim (Result-cases (require_member actor c)) [
      | inl (e, fails) ↦ absurd (ground arith)
      | inr (a, found) ↦ IsCounted-remove max_members actor c c' t (ground arith)
    ]
IsCounted-Step known max_members c c' t (role_set actor user role done) =
    elim (Result-cases (require_member actor c)) [
      | inl (e, fails) ↦ absurd (ground arith)
      | inr (a, found) ↦ elim (Result-cases (get_member user c)) [
        | inl (e, fails) ↦ absurd (ground arith)
        | inr (m, there) ↦ elim (Result-cases (can_set_role a m role)) [
          | inl (e, fails) ↦ absurd (ground arith)
          | inr (x, allowed) ↦ elim (Bool-cases (same_role m.role role)) [
            | inl same ↦ let unchanged : c' ≡ c = ground arith in rw unchanged t
            | inr changes ↦ IsCounted-set_role max_members user role c c' t (ground arith)
          ]
        ]
      ]
    ]
IsCounted-Step known max_members c c' t (chat_deleted actor done) =
    elim (Result-cases (require_member actor c)) [
      | inl (e, fails) ↦ absurd (ground arith)
      | inr (a, found) ↦
          let same : c' ≡ record c { deleted = true } = ground (arith, can_delete_chat a c.kind) in
          rw same (record { counts = t.counts; within = t.within })
    ]

-- After any number of accepted requests, the stored member count of a chat that counted right and
-- was within the limit is still the number of its active members, and within the limit.
pub IsCounted-Steps :
    (known : ℕ → Bool) (max_members : ℕ) (c d : Chat)
    → IsCounted max_members c
    → Steps known max_members c d
    → IsCounted max_members d
IsCounted-Steps known max_members c d t none_yet = t
IsCounted-Steps known max_members c last t (then_step d e steps step) =
    IsCounted-Step known max_members d e (IsCounted-Steps known max_members c d t steps) step

-- ===== src/Mtproto/MsgId/Order.antt =====
-- Message ids ascend.
use messaging_app.Prelude.{
  Bool-cases, arith, false, inl, inr, leb, refl, ℕ, ◌%◌, ◌*◌, ◌+◌, ◌<◌, ◌^◌, ◌∙◌, ◌≡◌, ◌≤◌,
}
use messaging_app.Mtproto.MsgId.{Generator, next_id, signed_leb, with_kind}

signed_leb_small : (a b : ℕ) → a < 2 ^ 63 → b < 2 ^ 63 → signed_leb a b ≡ leb a b
unfolding signed_leb
signed_leb_small a b ha hb =
    let ea : (a + 2 ^ 63) % 2 ^ 64 ≡ a + 2 ^ 63 = omega (arith, ha) in
    let eb : (b + 2 ^ 63) % 2 ^ 64 ≡ b + 2 ^ 63 = omega (arith, hb) in rw (ea, eb) (ground arith)

with_kind_bounds :
    (kind id : ℕ)
    → kind < 4
    → (id < with_kind kind id + 4) × (with_kind kind id < id + 4) × (with_kind kind id % 4 ≡ kind)
unfolding with_kind
with_kind_bounds kind id known = (omega arith, omega (arith, known), omega (arith, known))

stepped_ascends : (kind last : ℕ) → kind < 4 → last < with_kind kind (last + 4)
unfolding with_kind
stepped_ascends kind last known = omega arith

-- As long as the seconds and the last id have not reached the upper half of the signed range, the next
-- id is greater than the last one, has the kind in its low two bits, and is not before the clock.
pub next_id_ascends :
    (kind now : ℕ) (g : Generator)
    → kind < 4
    → now + g.offset < 2 ^ 31
    → g.last + 8 < 2 ^ 63
    → (g.last < (next_id kind now g).0)
      × ((next_id kind now g).0 % 4 ≡ kind)
      × ((now + g.offset) * 2 ^ 32 ≤ (next_id kind now g).0)
      × ((next_id kind now g).1.last ≡ (next_id kind now g).0)
unfolding next_id
next_id_ascends kind now g known early room =
    let base = (now + g.offset) * 2 ^ 32 in
    let exact : base % 2 ^ 64 ≡ base = omega (arith, early) in
    let step : (g.last + 4) % 2 ^ 64 ≡ g.last + 4 = omega (arith, room) in
    let cmp = signed_leb_small base g.last (omega (arith, early)) (omega (arith, room)) in
    rw (exact, step)
      (elim (Bool-cases (leb base g.last)) [
        | inl behind ↦
            let le : base ≤ g.last = ground arith in
            let k = with_kind_bounds kind (g.last + 4) known in
            let stepped = stepped_ascends kind g.last known in
            let cmp' =
              signed_leb_small (with_kind kind (g.last + 4)) g.last (omega (arith, k.1, room))
                (omega (arith, room)) in
            let past : leb (with_kind kind (g.last + 4)) g.last ≡ false = ground (arith, stepped) in
            rw (cmp ∙ behind) (rw (cmp' ∙ past) (stepped, k.2, omega (arith, le, stepped), refl))
        | inr ahead ↦
            let lt : g.last < base = ground arith in
            let k = with_kind_bounds kind base known in
            let aligned : base ≤ with_kind kind base = unfold with_kind in omega arith in
            let cmp' =
              signed_leb_small (with_kind kind base) g.last (omega (arith, k.1, early))
                (omega (arith, room)) in
            let past : leb (with_kind kind base) g.last ≡ false = ground (arith, aligned, lt) in
            rw (cmp ∙ ahead) (rw (cmp' ∙ past) (omega (arith, aligned, lt), k.2, aligned, refl))
      ])

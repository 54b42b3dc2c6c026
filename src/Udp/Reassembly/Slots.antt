-- ===== src/Udp/Reassembly/Slots.antt =====
-- The bookkeeping of partial messages: counts, sizes and the bound on their number.
use messaging_app.Prelude.{
  Bool-cases, List, Option, Option-cases, [], ap, arith, false, get_elem?, inl, inr, leb, length,
  length-append, length-replicate, length-set, ltb, none, not, ok, refl, replicate, set, some, suc,
  true, zero, ℕ, ◌+◌, ◌-◌, ◌<◌, ◌==◌, ◌||◌, ◌∙◌, ◌∷◌, ◌≡◌, ◌≤◌,
}
use messaging_app.Prelude.Assoc.{
  Values, Values-erase, Values-insert, Values-lookup, erase, insert, length-erase-le, length-insert,
  lookup, lookup-insert,
}
use messaging_app.Udp.{Header, max_frame_size}
use messaging_app.Udp.Reassembly.{
  Partial, fill, is_missing, join, max_partials, new_partial, reassemble, reassembly_ttl, settle,
  sweep_partials,
}
use messaging_app.Udp.Reassembly.Indexed.{added, reassemble-reassembled, reassembled}

-- How many fragments have come, and how long they are together.
unfoldable pub count_some : List (Option (List ℕ)) → ℕ
count_some [] = 0
count_some (none ∷ fs) = count_some fs
count_some (some f ∷ fs) = suc (count_some fs)

-- A partial message that the table may hold: its counters are those of its slots, at least one
-- fragment is missing, and its bytes are within the limit of a frame.
pub record IsPartial (p : Partial) : Type 0 where
  pub slots : length p.fragments ≡ p.total
  pub counted : count_some p.fragments ≡ p.received
  pub measured : length (join p.fragments) ≡ p.bytes
  pub waiting : p.received < p.total
  pub bounded : p.bytes ≤ max_frame_size

pub count_some-le : (fs : List (Option (List ℕ))) → count_some fs ≤ length fs
unfolding count_some
count_some-le [] = omega arith
count_some-le (none ∷ fs) = omega (arith, count_some-le fs)
count_some-le (some f ∷ fs) = omega (arith, count_some-le fs)

module _ (f : List ℕ) where
  count_some-set :
      (fs : List (Option (List ℕ))) (i : ℕ)
      → is_missing (get_elem? fs i) ≡ true
      → count_some (set fs i (some f)) ≡ suc (count_some fs)
  unfolding count_some is_missing
  count_some-set [] i h = cc
  count_some-set (none ∷ fs) zero h = refl
  count_some-set (some g ∷ fs) zero h = cc
  count_some-set (none ∷ fs) (suc i) h = count_some-set fs i h
  count_some-set (some g ∷ fs) (suc i) h = ap suc (count_some-set fs i h)

  length-join-set :
      (fs : List (Option (List ℕ))) (i : ℕ)
      → is_missing (get_elem? fs i) ≡ true
      → length (join (set fs i (some f))) ≡ length (join fs) + length f
  unfolding join is_missing
  length-join-set [] i h = cc
  length-join-set (none ∷ fs) zero h = omega (arith, length-append f (join fs))
  length-join-set (some g ∷ fs) zero h = cc
  length-join-set (none ∷ fs) (suc i) h = length-join-set fs i h
  length-join-set (some g ∷ fs) (suc i) h = omega (
    arith,
    length-append g (join (set fs i (some f))),
    length-append g (join fs),
    length-join-set fs i h,
  )

count_some-replicate : (n : ℕ) → count_some (replicate n none) ≡ 0
unfolding count_some
count_some-replicate zero = refl
count_some-replicate (suc n) = count_some-replicate n

join-replicate : (n : ℕ) → join (replicate n none) ≡ []
unfolding join
join-replicate zero = refl
join-replicate (suc n) = join-replicate n

-- The counters without the bounds, which hold of the entry even when it is about to be dropped.
pub record IsCounted (p : Partial) : Type 0 where
  pub slots : length p.fragments ≡ p.total
  pub counted : count_some p.fragments ≡ p.received
  pub measured : length (join p.fragments) ≡ p.bytes

pub fill-IsCounted : (i : ℕ) (f : List ℕ) (p : Partial) → IsCounted p → IsCounted (fill i f p)
unfolding fill
fill-IsCounted i f p v = elim (Bool-cases (is_missing (get_elem? p.fragments i))) [
  | inl open_slot ↦ rw open_slot (record {
    slots = length-set p.fragments i (some f) ∙ v.slots;
    counted = omega (arith, count_some-set f p.fragments i open_slot, v.counted);
    measured = omega (arith, length-join-set f p.fragments i open_slot, v.measured);
  })
  | inr taken ↦ rw taken v
]

pub new_partial-IsPartial : (n now : ℕ) → 0 < n → IsPartial (new_partial n now)
unfolding new_partial
new_partial-IsPartial n now h = record {
  slots = length-replicate {A = Option (List ℕ)} n none;
  counted = count_some-replicate n;
  measured = rw (join-replicate n) refl;
  waiting = h;
  bounded = omega arith;
}

pub IsPartial-IsCounted : {p : Partial} → IsPartial p → IsCounted p
IsPartial-IsCounted v = record { slots = v.slots; counted = v.counted; measured = v.measured }

pub total-fill : (i : ℕ) (f : List ℕ) (p : Partial) → (fill i f p).total ≡ p.total
unfolding fill
total-fill i f p = ground arith

pub kept-IsPartial :
    (p : Partial)
    → IsCounted p
    → (p.received == p.total) ≡ false
    → ltb max_frame_size p.bytes ≡ false
    → IsPartial p
kept-IsPartial p v missing small = record {
  slots = v.slots;
  counted = v.counted;
  measured = v.measured;
  waiting = ground (arith, count_some-le p.fragments, v.slots, v.counted);
  bounded = ground arith;
}

pub length-sweep :
    (now : ℕ) (table : List (ℕ × Partial)) → length (sweep_partials now table) ≤ length table
unfolding sweep_partials
length-sweep now [] = omega arith
length-sweep now ((k, p) ∷ table) = ground (arith, length-sweep now table)

Values-sweep :
    (now : ℕ) (table : List (ℕ × Partial))
    → Values IsPartial table
    → Values IsPartial (sweep_partials now table)
unfolding sweep_partials
Values-sweep now [] h = tt
Values-sweep now ((k, p) ∷ table) h = elim (Bool-cases (ltb reassembly_ttl (now - p.started))) [
  | inl old ↦ rw old (Values-sweep now table h.1)
  | inr young ↦ rw young (h.0, Values-sweep now table h.1)
]

-- The table of partial messages: at most 64 entries, each of them well kept.
pub record IsTable (table : List (ℕ × Partial)) : Type 0 where
  pub few : length table ≤ max_partials
  pub kept : Values IsPartial table

erase-IsTable : (k : ℕ) (table : List (ℕ × Partial)) → IsTable table → IsTable (erase k table)
erase-IsTable k table t = record {
  few = omega (arith, length-erase-le k table, t.few);
  kept = Values-erase IsPartial k table t.kept;
}

replace-IsTable :
    (k : ℕ) (p q : Partial) (table : List (ℕ × Partial))
    → IsPartial p
    → lookup k table ≡ some q
    → IsTable table
    → IsTable (insert k p table)
replace-IsTable k p q table v there t = record {
  few = ground (arith, length-insert k p table, t.few);
  kept = Values-insert IsPartial k p table v t.kept;
}

added-IsTable :
    (h : Header) (f : List ℕ) (p q : Partial) (table : List (ℕ × Partial))
    → IsPartial p
    → lookup h.msg_seq table ≡ some q
    → IsTable table
    → IsTable (added h f p table).0
unfolding added settle
added-IsTable h f p q table v there t =
    let p' = fill h.frag_index f p in
    elim (Bool-cases (not (p.total == h.frag_count) || leb p.total h.frag_index)) [
      | inl wrong ↦ rw wrong t
      | inr right ↦ rw right (elim (Bool-cases (p'.received == p'.total)) [
        | inl complete ↦ rw complete (erase-IsTable h.msg_seq table t)
        | inr missing ↦ rw missing (elim (Bool-cases (ltb max_frame_size p'.bytes)) [
          | inl big ↦ rw big (erase-IsTable h.msg_seq table t)
          | inr small ↦ rw small (
              replace-IsTable h.msg_seq p' q table
                (kept-IsPartial p' (fill-IsCounted h.frag_index f p (IsPartial-IsCounted v)) missing
                  small)
                there t)
        ])
      ])
    ]

reassembled-IsTable :
    (now : ℕ) (h : Header) (f : List ℕ) (table : List (ℕ × Partial))
    → 0 < h.frag_count
    → IsTable table
    → IsTable (reassembled now h f table).0
unfolding reassembled
reassembled-IsTable now h f table pos t = elim (Option-cases (lookup h.msg_seq table)) [
  | inr (p, there) ↦
      rw (there, reassembled)
        (added-IsTable h f p p table (Values-lookup IsPartial h.msg_seq p table t.kept there) there
          t)
  | inl absent ↦
      rw (absent, reassembled)
        (elim (Bool-cases (leb max_partials (length table))) [
          | inl at_limit ↦ rw at_limit t
          | inr room ↦
              let p = new_partial h.frag_count now in
              let empty = new_partial-IsPartial h.frag_count now pos in
              rw room (
                added-IsTable h f p p (insert h.msg_seq p table) empty
                  (rw lookup-insert (ground arith))
                  (record {
                    few = ground (arith, length-insert h.msg_seq p table, t.few);
                    kept = Values-insert IsPartial h.msg_seq p table empty t.kept;
                  }))
        ])
]

pub sweep_partials-IsTable :
    (now : ℕ) (table : List (ℕ × Partial)) → IsTable table → IsTable (sweep_partials now table)
sweep_partials-IsTable now table t = record {
  few = omega (arith, length-sweep now table, t.few);
  kept = Values-sweep now table t.kept;
}

-- In a well kept table no entry has fewer slots than it counts.
pub IsTable-slots :
    (seq : ℕ) (table : List (ℕ × Partial))
    → IsTable table
    → (p : Partial) → lookup seq table ≡ some p
    → length p.fragments ≡ p.total
IsTable-slots seq table t p there = (Values-lookup IsPartial seq p table t.kept there).slots

-- Whatever fragment comes, with a fragment count other than 0, to a well kept table, no index is
-- out of range, and the table stays so: at most 64 partial messages, none of them complete and
-- none longer than a frame may be, with counters that are those of their slots.
pub reassemble-IsTable :
    (now : ℕ) (h : Header) (f : List ℕ) (table : List (ℕ × Partial))
    → 0 < h.frag_count
    → IsTable table
    → (r : List (ℕ × Partial) × Option (List ℕ)) × (reassemble now h f table ≡ ok r) × IsTable r.0
reassemble-IsTable now h f table pos t = (
  reassembled now h f table,
  reassemble-reassembled now h f table (IsTable-slots h.msg_seq table t),
  reassembled-IsTable now h f table pos t,
)

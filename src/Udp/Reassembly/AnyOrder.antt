-- ===== src/Udp/Reassembly/AnyOrder.antt =====
-- The fragments of one frame may come in any order.
use messaging_app.Prelude.{
  ==_iff, Bool-cases, List, Option, Option-cases, Result, [], arith, inl, inr, leb, length, ltb,
  none, not, ok, refl, some, sym, true, ℕ, ◌-◌, ◌==◌, ◌>>=◌, ◌||◌, ◌∙◌, ◌∷◌, ◌≡◌,
}
use messaging_app.Prelude.Assoc.{
  Entries, Entries-erase, Entries-insert, Entries-lookup, insert, lookup,
}
use messaging_app.Udp.{Header, Panic, flag_data, max_frame_size}
use messaging_app.Udp.Reassembly.{
  Partial, chunk, fill, fragment_count, join, max_partials, new_partial, reassemble, reassembly_ttl,
  settle, sweep_partials,
}
use messaging_app.Udp.Reassembly.Chunks.{
  Holds, Holds-replicate, fill-Holds, fragment_count_covers, join-filled,
}
use messaging_app.Udp.Reassembly.Indexed.{added, reassemble-reassembled, reassembled}
use messaging_app.Udp.Reassembly.Slots.{
  IsPartial, IsPartial-IsCounted, fill-IsCounted, kept-IsPartial, new_partial-IsPartial, total-fill,
}

-- The header under which fragment `i` of a frame arrives.
abbrev pub arriving : ℕ → ℕ → List ℕ → ℕ → Header
arriving conn_id seq frame i = record {
  flags = flag_data;
  conn_id = conn_id;
  msg_seq = seq;
  frag_index = i;
  frag_count = fragment_count frame;
  payload_len = length (chunk frame i);
}

-- A completed message comes before those that are completed later.
abbrev pub add_message :
    Option (List ℕ) → List (ℕ × Partial) × List (List ℕ) → List (ℕ × Partial) × List (List ℕ)
add_message none r = r
add_message (some m) r = (r.0, m ∷ r.1)

-- What happens to a connection's table, with its time: fragment `i` of the frame arrives, or the
-- reaper sweeps the table.
pub data Event : Type 0 where
  arrive : ℕ → ℕ → Event
  sweep : ℕ → Event

-- A run of the table over events: the table at the end and the messages that were completed on the
-- way.
unfoldable pub receive_all :
    ℕ
    → ℕ
    → List ℕ
    → List Event
    → List (ℕ × Partial)
    → Result Panic (List (ℕ × Partial) × List (List ℕ))
receive_all conn_id seq frame [] table = ok (table, [])
receive_all conn_id seq frame (arrive now i ∷ es) table = do
  (table', m) ← reassemble now (arriving conn_id seq frame i) (chunk frame i) table
  rest ← receive_all conn_id seq frame es table'
  ok (add_message m rest)
receive_all conn_id seq frame (sweep now ∷ es) table =
    receive_all conn_id seq frame es (sweep_partials now table)

-- The run where no index is out of range.
unfoldable pub received :
    ℕ → ℕ → List ℕ → List Event → List (ℕ × Partial) → List (ℕ × Partial) × List (List ℕ)
received conn_id seq frame [] table = (table, [])
received conn_id seq frame (arrive now i ∷ es) table =
    let r = reassembled now (arriving conn_id seq frame i) (chunk frame i) table in
    add_message r.1 (received conn_id seq frame es r.0)
received conn_id seq frame (sweep now ∷ es) table =
    received conn_id seq frame es (sweep_partials now table)

-- A partial message of the frame: its slots hold fragments of the frame in their places.
pub record IsPartialOf (frame : List ℕ) (p : Partial) : Type 0 where
  pub well : IsPartial p
  pub holds : Holds frame 0 p.fragments
  pub counts : p.total ≡ fragment_count frame

-- An entry for the message is one of this frame.
abbrev pub IsEntryOf : ℕ → List ℕ → ℕ → Partial → Type 0
IsEntryOf seq frame k p = k ≡ seq → IsPartialOf frame p

-- If the table has an entry for the message, it is one of this frame.
abbrev pub EntryOf : ℕ → List ℕ → List (ℕ × Partial) → Type 0
EntryOf seq frame table = Entries (IsEntryOf seq frame) table

pub EntryOf-lookup :
    (seq : ℕ) (frame : List ℕ) (p : Partial) (table : List (ℕ × Partial))
    → EntryOf seq frame table
    → lookup seq table ≡ some p
    → IsPartialOf frame p
EntryOf-lookup seq frame p table t there =
    Entries-lookup (IsEntryOf seq frame) seq p table t there refl

pub EntryOf-sweep :
    (seq : ℕ) (frame : List ℕ) (now : ℕ) (table : List (ℕ × Partial))
    → EntryOf seq frame table
    → EntryOf seq frame (sweep_partials now table)
unfolding sweep_partials
EntryOf-sweep seq frame now [] t = tt
EntryOf-sweep seq frame now ((k, p) ∷ table) t =
    elim (Bool-cases (ltb reassembly_ttl (now - p.started))) [
      | inl old ↦ rw old (EntryOf-sweep seq frame now table t.1)
      | inr young ↦ rw young (t.0, EntryOf-sweep seq frame now table t.1)
    ]

pub new_partial-IsPartialOf :
    (frame : List ℕ) (now : ℕ) → IsPartialOf frame (new_partial (fragment_count frame) now)
new_partial-IsPartialOf frame now = record {
  well = new_partial-IsPartial (fragment_count frame) now (fragment_count_covers frame).1;
  holds = unfold new_partial in Holds-replicate frame (fragment_count frame) 0;
  counts = unfold new_partial in refl;
}

-- A complete set of slots of the frame is the frame.
pub complete-frame :
    (frame : List ℕ) (i : ℕ) (p : Partial)
    → IsPartialOf frame p
    → ((fill i (chunk frame i) p).received == (fill i (chunk frame i) p).total) ≡ true
    → join (fill i (chunk frame i) p).fragments ≡ frame
complete-frame frame i p v done =
    let p' = fill i (chunk frame i) p in
    let counted = fill-IsCounted i (chunk frame i) p (IsPartial-IsCounted v.well) in
    let full_count : p'.received ≡ p'.total = (==_iff _ _).0 done in
    join-filled frame p'.fragments (fill-Holds frame i p v.holds)
      (counted.counted ∙ full_count ∙ sym counted.slots)
      (rw (counted.slots, total-fill i (chunk frame i) p, v.counts) (fragment_count_covers frame).0)

module _ (conn_id seq : ℕ) (frame : List ℕ) (table : List (ℕ × Partial)) where
  added-EntryOf :
      (i : ℕ) (p : Partial)
      → IsPartialOf frame p
      → EntryOf seq frame table
      → EntryOf seq frame (added (arriving conn_id seq frame i) (chunk frame i) p table).0
  unfolding added settle
  added-EntryOf i p v t =
      let p' = fill i (chunk frame i) p in
      elim (Bool-cases (not (p.total == fragment_count frame) || leb p.total i)) [
        | inl wrong ↦ rw wrong t
        | inr right ↦
            rw right (elim (Bool-cases (p'.received == p'.total || ltb max_frame_size p'.bytes)) [
              | inl gone ↦ rw gone (Entries-erase (IsEntryOf seq frame) seq table t)
              | inr stays ↦ rw stays (
                  Entries-insert (IsEntryOf seq frame) seq p' table
                    (λ same. record {
                      well =
                          kept-IsPartial p'
                            (fill-IsCounted i (chunk frame i) p (IsPartial-IsCounted v.well))
                            (ground arith) (ground arith);
                      holds = fill-Holds frame i p v.holds;
                      counts = total-fill i (chunk frame i) p ∙ v.counts;
                    })
                    t)
            ])
      ]

module _ (conn_id seq now i : ℕ) (frame : List ℕ) (table : List (ℕ × Partial))
    (t : EntryOf seq frame table) where
  abbrev pub fresh : Partial
  fresh = new_partial (fragment_count frame) now

  pub fresh-EntryOf : EntryOf seq frame (insert seq fresh table)
  fresh-EntryOf =
      Entries-insert (IsEntryOf seq frame) seq fresh table
        (λ same. new_partial-IsPartialOf frame now) t

  pub reassembled-EntryOf :
      EntryOf seq frame (reassembled now (arriving conn_id seq frame i) (chunk frame i) table).0
  unfolding reassembled
  reassembled-EntryOf = elim (Option-cases (lookup seq table)) [
    | inr (p, there) ↦
        rw (there, reassembled)
          (added-EntryOf conn_id seq frame table i p (EntryOf-lookup seq frame p table t there) t)
    | inl absent ↦
        rw (absent, reassembled)
          (elim (Bool-cases (leb max_partials (length table))) [
            | inl at_limit ↦ rw at_limit t
            | inr room ↦ rw room (
                added-EntryOf conn_id seq frame (insert seq fresh table) i fresh
                  (new_partial-IsPartialOf frame now) fresh-EntryOf)
          ])
  ]

-- No index is out of range on the way.
pub receive_all-received :
    (conn_id seq : ℕ) (frame : List ℕ) (events : List Event) (table : List (ℕ × Partial))
    → EntryOf seq frame table
    → receive_all conn_id seq frame events table ≡ ok (received conn_id seq frame events table)
unfolding receive_all received
receive_all-received conn_id seq frame [] table t = refl
receive_all-received conn_id seq frame (arrive now i ∷ es) table t =
    let step = reassembled now (arriving conn_id seq frame i) (chunk frame i) table in
    rw
      (
        reassemble-reassembled now (arriving conn_id seq frame i) (chunk frame i) table
            (λ p there. (EntryOf-lookup seq frame p table t there).well.slots),
        receive_all-received conn_id seq frame es step.0
            (reassembled-EntryOf conn_id seq now i frame table t),
      )
      refl
receive_all-received conn_id seq frame (sweep now ∷ es) table t =
    receive_all-received conn_id seq frame es (sweep_partials now table)
      (EntryOf-sweep seq frame now table t)

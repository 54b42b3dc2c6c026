-- ===== src/Udp/Reassembly/Indexed.antt =====
-- Where the accesses to the slots of a partial message are in range.
use messaging_app.Prelude.{
  Bool-cases, List, Option, Option-cases, arith, if◌then◌else◌, inl, inr, leb, length,
  length-replicate, none, not, ok, refl, some, ℕ, ◌<◌, ◌==◌, ◌||◌, ◌≡◌,
}
use messaging_app.Prelude.Assoc.{insert, lookup}
use messaging_app.Udp.{Header}
use messaging_app.Udp.Reassembly.{
  Partial, add_fragment, fill, max_partials, new_partial, reassemble, settle, store,
}

pub store_inside :
    (i : ℕ) (f : List ℕ) (p : Partial) → i < length p.fragments → store i f p ≡ ok (fill i f p)
unfolding store
store_inside i f p h = ground arith

-- A fragment for a partial message that has as many slots as it counts fragments.
unfoldable pub added :
    Header → List ℕ → Partial → List (ℕ × Partial) → List (ℕ × Partial) × Option (List ℕ)
added h f p table =
    if not (p.total == h.frag_count) || leb p.total h.frag_index
    then (table, none)
    else settle h.msg_seq (fill h.frag_index f p) table

pub add_fragment-added :
    (h : Header) (f : List ℕ) (p : Partial) (table : List (ℕ × Partial))
    → length p.fragments ≡ p.total
    → add_fragment h f p table ≡ ok (added h f p table)
unfolding add_fragment added
add_fragment-added h f p table slots = ground (arith, store_inside h.frag_index f p)

-- A fragment for a table whose entry for the message, if any, has as many slots as it counts.
unfoldable pub reassembled :
    ℕ → Header → List ℕ → List (ℕ × Partial) → List (ℕ × Partial) × Option (List ℕ)
reassembled now h f table = elim (lookup h.msg_seq table) [
  | some p ↦ added h f p table
  | none ↦
      if leb max_partials (length table)
      then (table, none)
      else let p = new_partial h.frag_count now in added h f p (insert h.msg_seq p table)
]

-- Then no access is out of range.
pub reassemble-reassembled :
    (now : ℕ) (h : Header) (f : List ℕ) (table : List (ℕ × Partial))
    → ((p : Partial) → lookup h.msg_seq table ≡ some p → length p.fragments ≡ p.total)
    → reassemble now h f table ≡ ok (reassembled now h f table)
unfolding reassemble reassembled
reassemble-reassembled now h f table slots = elim (Option-cases (lookup h.msg_seq table)) [
  | inr (p, there) ↦
      rw (there, reassemble, reassembled) (add_fragment-added h f p table (slots p there))
  | inl absent ↦
      rw (absent, reassemble, reassembled)
        (elim (Bool-cases (leb max_partials (length table))) [
          | inl at_limit ↦ rw at_limit refl
          | inr room ↦
              let p = new_partial h.frag_count now in
              rw room (
                add_fragment-added h f p (insert h.msg_seq p table)
                  (unfold new_partial in length-replicate {A = Option (List ℕ)} h.frag_count none))
        ])
]

-- ===== src/Prelude/Assoc.antt =====
-- A Go map with number keys, as an association list. The order of the entries is that of insertion;
-- the program's results do not depend on it where such a map is used.
use mathlib.Core.Path.{subst₂}
use messaging_app.Prelude.{
  ==_iff, ==_refl, Bool-cases, List, Option, [], arith, if◌then◌else◌, inl, inr, length, none, refl,
  some, subst, ℕ, ◌+◌, ◌==◌, ◌∷◌, ◌≡◌, ◌≤◌,
}

module _ {ℓ} {V : Type ℓ} where
  unfoldable pub lookup : ℕ → List (ℕ × V) → Option V
  lookup k [] = none
  lookup k ((j, v) ∷ m) = if j == k then some v else lookup k m

  unfoldable pub insert : ℕ → V → List (ℕ × V) → List (ℕ × V)
  insert k v [] = (k, v) ∷ []
  insert k v ((j, w) ∷ m) = if j == k then (k, v) ∷ m else (j, w) ∷ insert k v m

  unfoldable pub erase : ℕ → List (ℕ × V) → List (ℕ × V)
  erase k [] = []
  erase k ((j, v) ∷ m) = let rest = erase k m in if j == k then rest else (j, v) ∷ rest

  pub lookup-insert :
      (k j : ℕ) (v : V) (rows : List (ℕ × V))
      → lookup j (insert k v rows) ≡ (if k == j then some v else lookup j rows)
  unfolding lookup insert
  lookup-insert k j v [] = refl
  lookup-insert k j v (row ∷ rows) = ground (arith, lookup-insert k j v rows)

  pub lookup-erase :
      (k j : ℕ) (m : List (ℕ × V)) → lookup j (erase k m) ≡ (if k == j then none else lookup j m)
  unfolding lookup erase
  lookup-erase k j [] = ground arith
  lookup-erase k j ((i, w) ∷ m) = ground (arith, lookup-erase k j m)

  -- An insertion adds an entry only if there was none under its key.
  pub length-insert :
      (k : ℕ) (v : V) (m : List (ℕ × V))
      → length (insert k v m) ≡ length m + elim (lookup k m) [ none ↦ 1 | some w ↦ 0 ]
  unfolding lookup insert
  length-insert k v [] = refl
  length-insert k v ((j, w) ∷ m) = ground (arith, length-insert k v m)

  pub length-erase-le : (k : ℕ) (m : List (ℕ × V)) → length (erase k m) ≤ length m
  unfolding erase
  length-erase-le k [] = omega arith
  length-erase-le k ((j, v) ∷ m) = ground (arith, length-erase-le k m)

module _ {ℓ κ} {V : Type ℓ} (P : V → Type κ) where
  -- Every value of the map has the property.
  abbrev pub Values : List (ℕ × V) → Type κ
  Values [] = Unit
  Values ((k, v) ∷ m) = P v × Values m

  pub Values-insert : (k : ℕ) (v : V) (m : List (ℕ × V)) → P v → Values m → Values (insert k v m)
  unfolding insert
  Values-insert k v [] p h = (p, tt)
  Values-insert k v ((j, w) ∷ m) p h = elim (Bool-cases (j == k)) [
    | inl same ↦ rw same (p, h.1)
    | inr other ↦ rw other (h.0, Values-insert k v m p h.1)
  ]

  pub Values-erase : (k : ℕ) (m : List (ℕ × V)) → Values m → Values (erase k m)
  unfolding erase
  Values-erase k [] h = tt
  Values-erase k ((j, w) ∷ m) h = elim (Bool-cases (j == k)) [
    | inl same ↦ rw same (Values-erase k m h.1)
    | inr other ↦ rw other (h.0, Values-erase k m h.1)
  ]

  pub Values-lookup : (k : ℕ) (v : V) (m : List (ℕ × V)) → Values m → lookup k m ≡ some v → P v
  unfolding lookup
  Values-lookup k v [] h e = cc
  Values-lookup k v ((j, w) ∷ m) h e = elim (Bool-cases (j == k)) [
    | inl same ↦ let e' : w ≡ v = ground arith in subst P e' h.0
    | inr other ↦ Values-lookup k v m h.1 (ground arith)
  ]

module _ {ℓ κ} {V : Type ℓ} (P : ℕ → V → Type κ) where
  -- Every entry of the map has the property.
  abbrev pub Entries : List (ℕ × V) → Type κ
  Entries [] = Unit
  Entries ((k, v) ∷ m) = P k v × Entries m

  pub Entries-insert :
      (k : ℕ) (v : V) (m : List (ℕ × V)) → P k v → Entries m → Entries (insert k v m)
  unfolding insert
  Entries-insert k v [] p h = (p, tt)
  Entries-insert k v ((j, w) ∷ m) p h = elim (Bool-cases (j == k)) [
    | inl same ↦ rw same (p, h.1)
    | inr other ↦ rw other (h.0, Entries-insert k v m p h.1)
  ]

  pub Entries-erase : (k : ℕ) (m : List (ℕ × V)) → Entries m → Entries (erase k m)
  unfolding erase
  Entries-erase k [] h = tt
  Entries-erase k ((j, w) ∷ m) h = elim (Bool-cases (j == k)) [
    | inl same ↦ rw same (Entries-erase k m h.1)
    | inr other ↦ rw other (h.0, Entries-erase k m h.1)
  ]

  -- An entry that is put in and taken out again leaves no trace.
  pub Entries-erase-insert :
      (k : ℕ) (v : V) (m : List (ℕ × V)) → Entries m → Entries (erase k (insert k v m))
  unfolding erase insert
  Entries-erase-insert k v [] h = rw (==_refl k) tt
  Entries-erase-insert k v ((j, w) ∷ m) h = elim (Bool-cases (j == k)) [
    | inl same ↦ rw (same, erase, ==_refl k) (Entries-erase k m h.1)
    | inr other ↦ rw (other, erase, other) (h.0, Entries-erase-insert k v m h.1)
  ]

  pub Entries-lookup : (k : ℕ) (v : V) (m : List (ℕ × V)) → Entries m → lookup k m ≡ some v → P k v
  unfolding lookup
  Entries-lookup k v [] h e = cc
  Entries-lookup k v ((j, w) ∷ m) h e = elim (Bool-cases (j == k)) [
    | inl same ↦
        let e1 : w ≡ v = ground arith in let e2 : j ≡ k = (==_iff j k).0 same in subst₂ P e2 e1 h.0
    | inr other ↦ Entries-lookup k v m h.1 (ground arith)
  ]

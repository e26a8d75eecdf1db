-- ===== src/HashTable/Nodes.antt =====
-- One chain of nodes, first node first.
use pserver.Prelude.{
  ℕ, suc, ◌≤◌, ◌≡◌, refl, List, [], ◌∷◌, Option, none, some, arith, ◌==◌, if◌then◌else◌,
}

abbrev pub Chain {ℓ} : Type ℓ → Type ℓ
Chain V = List (ℕ × V)

module _ {ℓ} {V : Type ℓ} where
  unfoldable pub find_node : ℕ → Chain V → Option V
  find_node index [] = none
  find_node index ((id, val) ∷ c) = if id == index then some val else find_node index c

  unfoldable pub erase_node : ℕ → Chain V → Chain V
  erase_node index [] = []
  erase_node index ((id, val) ∷ c) = if id == index then c else (id, val) ∷ erase_node index c

  -- a write through the pointer to the value of a node
  unfoldable pub assign_node : ℕ → V → Chain V → Chain V
  assign_node index v [] = []
  assign_node index v ((id, val) ∷ c) =
      if id == index then (id, v) ∷ c else (id, val) ∷ assign_node index v c

  -- how often an index stands in the chain
  unfoldable pub occurrences : ℕ → Chain V → ℕ
  occurrences index [] = 0
  occurrences index ((id, val) ∷ c) =
      if id == index then suc (occurrences index c) else occurrences index c

  pub occurrences-find_none : (i : ℕ) (c : Chain V) → find_node i c ≡ none → occurrences i c ≡ 0
  unfolding find_node occurrences
  occurrences-find_none i [] h = refl
  occurrences-find_none i ((id, val) ∷ c) h = ground (arith, occurrences-find_none i c)

  pub find_none-occurrences : (i : ℕ) (c : Chain V) → occurrences i c ≡ 0 → find_node i c ≡ none
  unfolding find_node occurrences
  find_none-occurrences i [] h = refl
  find_none-occurrences i ((id, val) ∷ c) h = ground (arith, find_none-occurrences i c)

  pub find_node-erase_node :
      (i j : ℕ) (c : Chain V)
      → occurrences j c ≤ 1
      → find_node j (erase_node i c) ≡ (if i == j then none else find_node j c)
  unfolding find_node erase_node occurrences
  find_node-erase_node i j [] h = ground arith
  find_node-erase_node i j ((id, val) ∷ c) h =
      ground (arith, find_node-erase_node i j c, find_none-occurrences j c)

  pub occurrences-erase_node-le :
      (i j : ℕ) (c : Chain V) → occurrences j (erase_node i c) ≤ occurrences j c
  unfolding erase_node occurrences
  occurrences-erase_node-le i j [] = omega arith
  occurrences-erase_node-le i j ((id, val) ∷ c) = ground (arith, occurrences-erase_node-le i j c)

  pub find_node-assign_node :
      (i j : ℕ) (v : V) (c : Chain V) (old : V)
      → find_node i c ≡ some old
      → find_node j (assign_node i v c) ≡ (if i == j then some v else find_node j c)
  unfolding find_node assign_node
  find_node-assign_node i j v [] old h = cc
  find_node-assign_node i j v ((id, val) ∷ c) old h =
      ground (arith, find_node-assign_node i j v c old)

  pub occurrences-assign_node :
      (i j : ℕ) (v : V) (c : Chain V) → occurrences j (assign_node i v c) ≡ occurrences j c
  unfolding assign_node occurrences
  occurrences-assign_node i j v [] = refl
  occurrences-assign_node i j v ((id, val) ∷ c) = ground (arith, occurrences-assign_node i j v c)

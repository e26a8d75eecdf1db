-- ===== src/HashTable/Holds.antt =====
-- What holds of every value in a table.
use pserver.Prelude.{ℕ, ◌≡◌, subst, inl, inr, ◌&&◌, some, arith, ◌==◌, Bool-cases, is_none}
use pserver.HashTable.{Table, find, insert, erase, update_value, new}
use pserver.HashTable.Laws.{IsValid, find-init, find-insert, find-erase, find-update_value}

module _ {ℓ κ} {V : Type ℓ} (P : V → Type κ) where
  abbrev pub Holds : Table V → Type (ℓ ⊔ κ)
  Holds t = (j : ℕ) (v : V) → find j t ≡ some v → P v

  pub Holds-insert :
      (i : ℕ) (val : V) (t : Table V) → IsValid t → Holds t → P val → Holds (insert i val t)
  Holds-insert i val t valid h p j v e =
      let f = find-insert i t valid j val in
      elim (Bool-cases (i == j && is_none (find i t))) [
        | inl c ↦ subst P (ground (arith, f)) p
        | inr c ↦ h j v (ground (arith, f))
      ]

  pub Holds-erase : (i : ℕ) (t : Table V) → IsValid t → Holds t → Holds (erase i t).0
  Holds-erase i t valid h j v e = h j v (ground (arith, find-erase i t valid j))

  pub Holds-update_value :
      (i : ℕ) (val old : V) (t : Table V)
      → IsValid t
      → find i t ≡ some old
      → Holds t
      → P val
      → Holds (update_value i val t)
  Holds-update_value i val old t valid there h p j v e =
      let f = find-update_value i t valid j val old there in
      elim (Bool-cases (i == j)) [
        | inl c ↦ subst P (ground (arith, f)) p
        | inr c ↦ h j v (ground (arith, f))
      ]

  pub Holds-new : Holds new
  unfolding new
  Holds-new j v e = absurd (cc (find-init {V = V} 512 j))

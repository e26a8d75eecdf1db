-- ===== src/HashTable/Calls.antt =====
-- The table against a function from indices to values: what any sequence of calls gives back.
use pserver.Prelude.{
  ℕ, ◌≡◌, refl, sym, ap, ◌∙◌, inl, inr, ◌&&◌, List, [], ◌∷◌, Option, none, some, ◌==◌,
  if◌then◌else◌, Option-cases, is_none,
}
use pserver.HashTable.{Table, find, insert, erase, update_value}
use pserver.HashTable.Laws.{
  IsValid, find-insert, find-erase, find-update_value, insert-IsValid, erase-IsValid,
  update_value-IsValid,
}

-- The calls that the program makes: `write` is a change through the pointer that `Find` gave, where it
-- gave one.
pub data Call {ℓ} (V : Type ℓ) : Type ℓ where
  look : ℕ → Call V
  add : ℕ → V → Call V
  delete : ℕ → Call V
  write : ℕ → V → Call V

module _ {ℓ} {V : Type ℓ} where
  -- The table after a call, and the value that the caller gets.
  unfoldable pub call : Call V → Table V → Table V × Option V
  call (look i) t = (t, find i t)
  call (add i val) t = (insert i val t, none)
  call (delete i) t = ((erase i t).0, (erase i t).1)
  call (write i val) t = elim (find i t) [
    | none ↦ (t, none)
    | some old ↦ (update_value i val t, some old)
  ]

  unfoldable pub calls : List (Call V) → Table V → List (Option V)
  calls [] t = []
  calls (c ∷ cs) t = (call c t).1 ∷ calls cs (call c t).0

  -- The same on a function, which has no buckets and no chains.
  unfoldable pub map_call : Call V → (ℕ → Option V) → (ℕ → Option V) × Option V
  map_call (look i) m = (m, m i)
  map_call (add i val) m = (λ j. if i == j && is_none (m i) then some val else m j, none)
  map_call (delete i) m = (λ j. if i == j then none else m j, m i)
  map_call (write i val) m = elim (m i) [
    | none ↦ (m, none)
    | some old ↦ (λ j. if i == j then some val else m j, some old)
  ]

  unfoldable pub map_calls : List (Call V) → (ℕ → Option V) → List (Option V)
  map_calls [] m = []
  map_calls (c ∷ cs) m = (map_call c m).1 ∷ map_calls cs (map_call c m).0

  -- The table is well formed and holds what the function gives.
  pub record Represents (t : Table V) (m : ℕ → Option V) : Type ℓ where
    pub valid : IsValid t
    pub same : (j : ℕ) → find j t ≡ m j

  erased : (i : ℕ) (t : Table V) → (erase i t).1 ≡ find i t
  unfolding erase find
  erased i t = refl

  call-Represents :
      (c : Call V) (t : Table V) (m : ℕ → Option V)
      → Represents t m
      → Represents (call c t).0 (map_call c m).0 × ((call c t).1 ≡ (map_call c m).1)
  unfolding call map_call
  call-Represents (look i) t m r = (r, r.same i)
  call-Represents (add i val) t m r = (
    record {
      valid = insert-IsValid i t r.valid val;
      same = λ j. find-insert i t r.valid j val ∙ rw (r.same i, r.same j);
    },
    refl,
  )
  call-Represents (delete i) t m r = (
    record {
      valid = erase-IsValid i t r.valid;
      same = λ j. find-erase i t r.valid j ∙ rw (r.same j);
    },
    erased i t ∙ r.same i,
  )
  call-Represents (write i val) t m r = elim (Option-cases (find i t)) [
    | inl e ↦ rw (e, sym (r.same i) ∙ e, call, map_call) (r, refl)
    | inr (old, e) ↦
        rw (e, sym (r.same i) ∙ e, call, map_call)
          (
            record {
              valid = update_value-IsValid i t r.valid val;
              same = λ j. find-update_value i t r.valid j val old e ∙ rw (r.same j);
            },
            refl,
          )
  ]

  -- Any sequence of calls on a well-formed table gives its callers what the same calls give on a
  -- function that agrees with the table at the start: `Find` and `Erase` the value that was last put at
  -- the index, or none, where `Insert` puts nothing over a value that is there.
  pub calls-Represents :
      (cs : List (Call V)) (t : Table V) (m : ℕ → Option V)
      → Represents t m
      → calls cs t ≡ map_calls cs m
  unfolding calls map_calls
  calls-Represents [] t m r = refl
  calls-Represents (c ∷ cs) t m r =
      let (next, out) = call-Represents c t m r in
      ap (λ v. v ∷ calls cs (call c t).0) out
      ∙ ap (◌∷◌ (map_call c m).1) (calls-Represents cs (call c t).0 (map_call c m).0 next)

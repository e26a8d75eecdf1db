-- ===== src/HashTable/Laws.antt =====
-- The table as a finite map from indices to values.
use Prim.Native.Nat.{digits, bit_and, bit_and-bitwise}
use pserver.Prelude.{
  ◌^◌, ◌*◌, ◌+◌, ◌∙◌, ℕ, zero, suc, ◌-◌, ◌/◌, ◌≤◌, ◌<◌, ◌≡◌, refl, ap, inl, inr, ◌&&◌, List, [],
  ◌∷◌, none, some, arith, ◌==◌, if◌then◌else◌, Option-cases, is_none, length, get_or, set,
  replicate, length-set, length-replicate,
}
use native.Mathlib.Nat.{pow-suc}
use pserver.HashTable.Nodes.{
  find_node, erase_node, assign_node, occurrences, occurrences-find_none, find_node-erase_node,
  occurrences-erase_node-le, find_node-assign_node, occurrences-assign_node,
}
use pserver.HashTable.{
  bucket_loop, with_buckets, Table, init, slot, chain_of, find, insert, erase, update_value,
}

digits-le : (n a b : ℕ) → digits (λ _. zero) Prim.Native.Nat.min n a b ≤ b
digits-le zero a b = omega arith
digits-le (suc n) zero b = omega arith
digits-le (suc n) (suc a) b = omega (arith, digits-le n (suc a / 2) (b / 2))

pub bit_and-le : (a b : ℕ) → bit_and a b ≤ b
bit_and-le a b = omega (arith, bit_and-bitwise a b, digits-le a a b)

module _ {ℓ} {A : Type ℓ} where
  get_or-set :
      (xs : List A) (i j : ℕ) (v d : A)
      → i < length xs
      → get_or (set xs i v) j d ≡ (if i == j then v else get_or xs j d)
  get_or-set [] i j v d h = absurd (omega arith)
  get_or-set (x ∷ xs) zero zero v d h = refl
  get_or-set (x ∷ xs) zero (suc j) v d h = ground arith
  get_or-set (x ∷ xs) (suc i) zero v d h = ground arith
  get_or-set (x ∷ xs) (suc i) (suc j) v d h = ground (arith, get_or-set xs i j v d)

  get_or-replicate : (n i : ℕ) (a : A) → get_or (replicate n a) i a ≡ a
  get_or-replicate zero i a = refl
  get_or-replicate (suc n) zero a = refl
  get_or-replicate (suc n) (suc i) a = get_or-replicate n i a

pow-pos : (k : ℕ) → 0 < 2 ^ k
pow-pos zero = omega arith
pow-pos (suc k) = omega (arith, pow-suc 2 k, pow-pos k)

bucket_loop_fits :
    (rounds i buckets : ℕ)
    → 2 ^ i ≤ buckets
    → buckets ≤ 2 ^ (i + rounds)
    → let k = bucket_loop rounds i buckets in (2 ^ k ≤ buckets) × (buckets ≤ 2 ^ (k + 1))
unfolding bucket_loop
bucket_loop_fits zero i buckets lo hi =
    let same : 2 ^ (i + 0) ≡ 2 ^ i = ap (λ k. 2 ^ k) (omega arith) in
    let next : 2 ^ (i + 1) ≡ 2 ^ i * 2 = ap (λ k. 2 ^ k) (omega arith) ∙ pow-suc 2 i in
    (lo, omega arith)
bucket_loop_fits (suc rounds) i buckets lo hi =
    let shift : 2 ^ (i + suc rounds) ≡ 2 ^ (i + 1 + rounds) = ap (λ k. 2 ^ k) (omega arith) in
    ground (arith, bucket_loop_fits rounds (i + 1) buckets)

module _ {ℓ} {V : Type ℓ} where
  -- Every index has a chain, and stands in it at most once.
  pub record IsValid (t : Table V) : Type ℓ where
    pub wide : t.mod_mask < length t.chains
    pub once : (j : ℕ) → occurrences j (chain_of j t) ≤ 1

  slot-lt : (i : ℕ) (t : Table V) → IsValid t → slot i t < length t.chains
  slot-lt i t v = omega (arith, bit_and-le i t.mod_mask, v.wide)

  pub init-IsValid : (buckets : ℕ) → 0 < buckets → IsValid (init {V = V} buckets)
  unfolding init occurrences
  init-IsValid buckets h = record {
    wide = omega (arith, length-replicate {A = List (ℕ × V)} buckets []);
    once = λ j.
        rw (get_or-replicate {A = List (ℕ × V)} buckets (bit_and j (buckets - 1)) []) (omega arith);
  }

  pub find-init : (buckets i : ℕ) → find i (init {V = V} buckets) ≡ none
  unfolding find init find_node
  find-init buckets i =
      rw (get_or-replicate {A = List (ℕ × V)} buckets (bit_and i (buckets - 1)) [])

  pub with_buckets-IsValid : (buckets : ℕ) → IsValid (with_buckets {V = V} buckets)
  unfolding with_buckets
  with_buckets-IsValid buckets = init-IsValid _ (pow-pos _)

  pub find-with_buckets : (buckets i : ℕ) → find i (with_buckets {V = V} buckets) ≡ none
  unfolding with_buckets
  find-with_buckets buckets i = find-init _ i

  pub find_congr : (i j : ℕ) (t : Table V) → i ≡ j → find i t ≡ find j t
  find_congr i j t e = ap (λ k. find k t) e

  -- What a table with one chain replaced holds.
  module _ (t : Table V) (i : ℕ) (c : List (ℕ × V)) (v : IsValid t) where
    chain_of-set :
        (j : ℕ)
        → chain_of j (record t { chains = set t.chains (slot i t) c })
          ≡ (if slot i t == slot j t then c else chain_of j t)
    chain_of-set j = get_or-set t.chains (slot i t) (slot j t) c [] (slot-lt i t v)

    set-IsValid :
        ((j : ℕ) → slot i t ≡ slot j t → occurrences j c ≤ 1)
        → IsValid (record t { chains = set t.chains (slot i t) c })
    set-IsValid h = record {
      wide = rw (length-set t.chains (slot i t) c) v.wide;
      once = λ j. rw (chain_of-set j) (ground (arith, h j, v.once j));
    }

  module _ (i : ℕ) (t : Table V) (v : IsValid t) where
    same_slot : (j : ℕ) → slot i t ≡ slot j t → chain_of i t ≡ chain_of j t
    same_slot j s = ap (λ k. get_or t.chains k []) s

    once_here : (j : ℕ) → slot i t ≡ slot j t → occurrences j (chain_of i t) ≤ 1
    once_here j s = rw (same_slot j s) (v.once j)

    pub insert-IsValid : (val : V) → IsValid (insert i val t)
    unfolding insert occurrences
    insert-IsValid val = elim (Option-cases (find_node i (chain_of i t))) [
      | inr (old, e) ↦ rw (e, insert) v
      | inl e ↦
          rw (e, insert)
            (set-IsValid t i ((i, val) ∷ chain_of i t) v
              (λ j s. ground (arith, once_here j s, occurrences-find_none i (chain_of i t) e)))
    ]

    pub erase-IsValid : IsValid (erase i t).0
    unfolding erase
    erase-IsValid =
        set-IsValid t i (erase_node i (chain_of i t)) v
          (λ j s. omega (arith, once_here j s, occurrences-erase_node-le i j (chain_of i t)))

    pub update_value-IsValid : (val : V) → IsValid (update_value i val t)
    unfolding update_value
    update_value-IsValid val =
        set-IsValid t i (assign_node i val (chain_of i t)) v
          (λ j s. rw (occurrences-assign_node i j val (chain_of i t)) (once_here j s))

    -- In a valid table `Insert` adds an index that is absent, keeps the value of one that is there,
    -- and leaves every other index alone.
    pub find-insert :
        (j : ℕ) (val : V)
        → find j (insert i val t) ≡ (if i == j && is_none (find i t) then some val else find j t)
    unfolding find insert find_node
    find-insert j val = elim (Option-cases (find_node i (chain_of i t))) [
      | inr (old, e) ↦ rw (e, insert) (ground arith)
      | inl e ↦
          rw (e, insert, chain_of-set t i ((i, val) ∷ chain_of i t) v j)
            (ground (arith, same_slot j, ap (λ k. slot k t) {x = i} {y = j}))
    ]

    -- In a valid table `Erase` removes the index and leaves every other alone.
    pub find-erase : (j : ℕ) → find j (erase i t).0 ≡ (if i == j then none else find j t)
    unfolding find erase
    find-erase j =
        rw (chain_of-set t i (erase_node i (chain_of i t)) v j)
          (ground (arith, same_slot j, once_here j, find_node-erase_node i j (chain_of i t)))

    pub find-update_value :
        (j : ℕ) (val old : V)
        → find i t ≡ some old
        → find j (update_value i val t) ≡ (if i == j then some val else find j t)
    unfolding find update_value
    find-update_value j val old h =
        rw (chain_of-set t i (assign_node i val (chain_of i t)) v j)
          (ground (arith, same_slot j, find_node-assign_node i j val (chain_of i t) old h))

  -- The constructor for a wanted number of buckets from 1 to 2 ^ 20 takes a number of at least that
  -- and at most twice that, and the mask is one less; the table is empty and valid.
  pub with_buckets_size :
      (buckets : ℕ)
      → 1 ≤ buckets
      → buckets ≤ 2 ^ 20
      → let t = with_buckets {V = V} buckets in
        (buckets ≤ length t.chains)
        × (length t.chains ≤ 2 * buckets)
        × (t.mod_mask ≡ length t.chains - 1)
        × IsValid t
        × ((i : ℕ) → find i t ≡ none)
  unfolding with_buckets init
  with_buckets_size buckets lo hi =
      let k = bucket_loop 20 0 buckets in
      let fits = bucket_loop_fits 20 0 buckets lo hi in
      let size = length-replicate {A = List (ℕ × V)} (2 ^ (k + 1)) [] in
      let next : 2 ^ (k + 1) ≡ 2 ^ k * 2 = ap (λ n. 2 ^ n) (omega arith) ∙ pow-suc 2 k in
      (
        omega (arith, fits.1),
        omega (arith, fits.0),
        omega arith,
        with_buckets-IsValid buckets,
        find-with_buckets buckets,
      )

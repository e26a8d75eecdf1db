-- ===== src/HashTable.antt =====
-- hash_table.h: `CHashTable<int, ValType>`, a fixed array of chains. An `int` index is its 32-bit
-- pattern; `nodes` of one chain stand in list order, and `delete` of a node is its disappearance.
pub mod Nodes
pub mod Laws
pub mod Calls
pub mod Contents
pub mod Walks
pub mod Holds
use Prim.Native.Nat.{bit_and}
use pserver.Prelude.{
  ℕ, zero, suc, ◌+◌, ◌-◌, ◌*◌, ◌/◌, ◌%◌, ◌^◌, ◌≤◌, ◌<◌, ◌≡◌, refl, sym, ap, ◌∙◌, ◌≢◌, ◌⊎◌, inl, inr,
  Bool, true, false, not, ◌&&◌, ◌||◌, List, [], ◌∷◌, ◌++◌, map, append_assoc, append-nil, Option,
  none, some, arith, leb, ltb, ◌==◌, ==_iff, if◌then◌else◌, Bool-cases, Option-cases, length,
  get_or, set, take, drop, replicate, All, length-append, length-set, length-take, length-drop,
  length-replicate, ◌>>=◌, ◌>>◌, Returns,
}
use pserver.HashTable.Nodes.{Chain, find_node, erase_node, assign_node}

pub record Table {ℓ} (V : Type ℓ) : Type ℓ where
  pub chains : List (Chain V)
  pub mod_mask : ℕ

-- `for (; i < 20; i++) if (buckets <= 1 << (i + 1) && buckets >= 1 << i) break;`
unfoldable pub bucket_loop : ℕ → ℕ → ℕ → ℕ
bucket_loop zero i buckets = i
bucket_loop (suc rounds) i buckets =
    let next = bucket_loop rounds (i + 1) buckets in
    if leb buckets (2 ^ (i + 1)) && leb (2 ^ i) buckets then i else next

module _ {ℓ} {V : Type ℓ} where
  -- `Init` with `m_buckets` set: `new SHashNode*[m_buckets]`, cleared by `memset`
  unfoldable pub init : ℕ → Table V
  init buckets = record { chains = replicate buckets []; mod_mask = buckets - 1 }

  -- `CHashTable()`
  unfoldable pub new : Table V
  unfolding init
  new = init 512

  -- `CHashTable(int buckets)`
  unfoldable pub with_buckets : ℕ → Table V
  unfolding init bucket_loop
  with_buckets buckets = init (2 ^ (bucket_loop 20 0 buckets + 1))

  abbrev pub slot : ℕ → Table V → ℕ
  slot index t = bit_and index t.mod_mask

  abbrev pub chain_of : ℕ → Table V → Chain V
  chain_of index t = get_or t.chains (slot index t) []

  unfoldable pub find : ℕ → Table V → Option V
  find index t = find_node index (chain_of index t)

  -- an index that is there already keeps its value
  unfoldable pub insert : ℕ → V → Table V → Table V
  insert index val t = elim (find_node index (chain_of index t)) [
    | some _ ↦ t
    | none ↦ record t { chains = set t.chains (slot index t) ((index, val) ∷ chain_of index t) }
  ]

  -- both overloads: the second component is what `Erase(index, val)` writes to `val`
  unfoldable pub erase : ℕ → Table V → Table V × Option V
  erase index t = (
    record t { chains = set t.chains (slot index t) (erase_node index (chain_of index t)) },
    find_node index (chain_of index t),
  )

  -- a change through the pointer that `Find` gave
  unfoldable pub update_value : ℕ → V → Table V → Table V
  update_value index val t = record t {
    chains = set t.chains (slot index t) (assign_node index val (chain_of index t));
  }

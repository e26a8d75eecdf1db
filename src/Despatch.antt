-- ===== src/Despatch.antt =====
-- net_despatch.h and net_despatch.cpp: `DespatchCommand`, the table from packet types to handlers. A
-- handler acts on a world `W`; `none` is undefined behaviour in it.
pub mod Laws
use pserver.Prelude.{
  ℕ, zero, suc, ◌+◌, ◌-◌, ◌*◌, ◌/◌, ◌%◌, ◌^◌, ◌≤◌, ◌<◌, ◌≡◌, refl, sym, ap, subst, ◌∙◌, ◌≢◌, ◌⊎◌,
  inl, inr, Bool, true, false, not, ◌&&◌, ◌||◌, List, [], ◌∷◌, ◌++◌, map, append_assoc, append-nil,
  Option, none, some, arith, leb, ltb, ◌==◌, ==_iff, if◌then◌else◌, Bool-cases, lt→ltb, not-ltb,
  ==_refl, ==_ne, Option-cases, length, get_or, set, count_if, take, drop, replicate, All,
  length-append, length-set, length-take, length-drop, length-replicate, ◌>>=◌, ◌>>◌, Returns,
}
use pserver.HashTable
use pserver.HashTable.{Table}
use pserver.Message.{Message, get_type}

abbrev pub CommandFun : Type 0 → Type 0
CommandFun W = ℕ → Message → W → Option W

-- `SCommand`
pub record Command (W : Type 0) : Type 0 where
  pub com_type : ℕ
  pub com_fun : CommandFun W

module _ {W : Type 0} where
  -- `DespatchCommand() : m_funMap(512)`
  unfoldable pub new : Table (CommandFun W)
  new = HashTable.with_buckets 512

  unfoldable pub add_command : ℕ → CommandFun W → Table (CommandFun W) → Table (CommandFun W) × Bool
  add_command com_type fun t = (HashTable.insert com_type fun t, true)

  -- the pointer runs over the array `num` times
  unfoldable pub add_command_deal : List (Command W) → Table (CommandFun W) → Table (CommandFun W)
  add_command_deal [] t = t
  add_command_deal (c ∷ cs) t = add_command_deal cs (add_command c.com_type c.com_fun t).0

  -- the `TimePrint` around the call only logs
  unfoldable pub despatch : ℕ → Option Message → Table (CommandFun W) → W → Option (W × Bool)
  despatch sock none t w = some (w, false)
  despatch sock (some msg) t w = do
    type ← get_type msg
    elim (HashTable.find type t) [
      | none ↦ some (w, false)
      | some fun ↦ do w' ← fun sock msg w; some (w', true)
    ]

-- ===== src/Despatch/Laws.antt =====
-- net_despatch.cpp: which handler a packet reaches.
use pserver.Prelude.{
  ℕ, ◌≡◌, Bool, true, false, List, [], ◌∷◌, Option, none, some, arith, ◌==◌, if◌then◌else◌, ◌>>=◌,
}
use pserver.HashTable
use pserver.HashTable.{Table}
use pserver.HashTable.Laws.{
  IsValid, with_buckets-IsValid, find-with_buckets, find_congr, insert-IsValid, find-insert,
}
use pserver.Message.{Message, get_type}
use pserver.Despatch.{CommandFun, Command, new, add_command, add_command_deal, despatch}

module _ {W : Type 0} where
  -- the first command of a type
  unfoldable pub first_of : ℕ → List (Command W) → Option (CommandFun W)
  first_of type [] = none
  first_of type (c ∷ cs) = if c.com_type == type then some c.com_fun else first_of type cs

  pub or_else : Option (CommandFun W) → Option (CommandFun W) → Option (CommandFun W)
  or_else (some f) g = some f
  or_else none g = g

  new-IsValid : IsValid (new {W = W})
  unfolding new
  new-IsValid = with_buckets-IsValid 512

  find-new : (type : ℕ) → HashTable.find type (new {W = W}) ≡ none
  unfolding new
  find-new type = find-with_buckets 512 type

  add_all :
      (cs : List (Command W)) (t : Table (CommandFun W)) (type : ℕ)
      → IsValid t
      → IsValid (add_command_deal cs t)
        × (HashTable.find type (add_command_deal cs t)
            ≡ or_else (HashTable.find type t) (first_of type cs))
  unfolding add_command_deal add_command first_of or_else
  add_all [] t type v = (v, ground arith)
  add_all (c ∷ cs) t type v =
      let v' = insert-IsValid c.com_type t v c.com_fun in
      let (valid, found) = add_all cs (HashTable.insert c.com_type c.com_fun t) type v' in
      (
        valid,
        rw (found, find-insert c.com_type t v type c.com_fun)
            (ground (arith, find_congr c.com_type type t)),
      )

  unfoldable pub run_handler : ℕ → Message → W → Option (CommandFun W) → Option (W × Bool)
  run_handler sock msg w none = some (w, false)
  run_handler sock msg w (some f) = do w' ← f sock msg w; some (w', true)

  -- After `AddCommandDeal` on the new table a packet with a readable type goes to the first command
  -- in the array with its type, which runs once and whose effect is all that happens; with no such
  -- command the result is `false` and nothing is done.
  pub despatch-add_command_deal :
      (cs : List (Command W)) (sock type : ℕ) (msg : Message) (w : W)
      → get_type msg ≡ some type
      → despatch sock (some msg) (add_command_deal cs new) w
        ≡ run_handler sock msg w (first_of type cs)
  unfolding despatch run_handler or_else
  despatch-add_command_deal cs sock type msg w e =
      let found = (add_all cs new type new-IsValid).1 in ground (arith, found, find-new type)

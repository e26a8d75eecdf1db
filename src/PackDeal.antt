-- ===== src/PackDeal.antt =====
-- net_packdeal.h, net_packdeal.cpp and net_protocol.h: `PackageDeal`, the handlers and their table.
pub mod Laws
use pserver.Prelude.{
  ℕ, zero, suc, ◌+◌, ◌-◌, ◌*◌, ◌/◌, ◌%◌, ◌^◌, ◌≤◌, ◌<◌, ◌≡◌, refl, sym, ap, subst, ◌∙◌, ◌≢◌, ◌⊎◌,
  inl, inr, Bool, true, false, not, ◌&&◌, ◌||◌, List, [], ◌∷◌, ◌++◌, map, append_assoc, append-nil,
  Option, none, some, arith, leb, ltb, ◌==◌, ==_iff, if◌then◌else◌, Bool-cases, lt→ltb, not-ltb,
  ==_refl, ==_ne, Option-cases, length, get_or, set, count_if, take, drop, replicate, All,
  length-append, length-set, length-take, length-drop, length-replicate, ◌>>=◌, ◌>>◌, Returns,
}
use pserver.Despatch.{CommandFun, Command, add_command_deal}
use pserver.HashTable.{Table}
use pserver.Server.{Entry, closed}
use pserver.Message
use pserver.Message.{Message}
use pserver.Message.Streams.{Field, int, text, put_fields, get_fields}

-- `PTL_TEST`
abbrev pub ptl_test : ℕ
ptl_test = 1

-- What `PTL_Test` reads into, and what it answers: the C string is "abcdefg".
abbrev pub targets : List Field
targets = int 1 0 ∷ int 2 0 ∷ int 4 0 ∷ int 8 0 ∷ text [] ∷ []

abbrev pub answer : List Field
answer =
    int 1 111
    ∷ int 2 65530
    ∷ int 4 200000001
    ∷ int 8 1234567890123
    ∷ text (97 ∷ 98 ∷ 99 ∷ 100 ∷ 101 ∷ 102 ∷ 103 ∷ [])
    ∷ []

-- `PTL_Test` up to the call of `SendMsg`: the values that it prints, and the packet that it sends.
unfoldable pub ptl_test_reply : Message → Option (List Field × Message)
ptl_test_reply msg = do
  let (msg', values) = get_fields targets msg
  fresh ← Message.new
  typed ← Message.set_type ptl_test fresh
  reply ← put_fields answer typed
  some (values, reply)

-- `OnSockClose`, the callback: one line
unfoldable pub on_sock_close : ℕ → List Entry → List Entry
on_sock_close sock entries = entries ++ closed sock ∷ []

module _ {W : Type 0} (log : ℕ → W → W) (send_msg : ℕ → Message → W → Option W) where
  -- `log` writes the line on the packet; it is never null here: `Despatch` refuses a null pointer before
  unfoldable pub ptl_test_fun : CommandFun W
  unfolding ptl_test_reply
  ptl_test_fun sock msg w = do
    (values, reply) ← ptl_test_reply msg
    send_msg sock reply (log sock w)

  -- the table that the constructor passes to `AddCommandDeal`
  abbrev pub commands : List (Command W)
  commands = record { com_type = ptl_test; com_fun = ptl_test_fun } ∷ []

  unfoldable pub register : Table (CommandFun W) → Table (CommandFun W)
  register t = add_command_deal commands t

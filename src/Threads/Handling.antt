-- ===== src/Threads/Handling.antt =====
-- server.cpp, `PackDeal`: what the handler thread does with the oldest packet.
use pserver.Prelude.{
  ℕ, ◌-◌, ◌<◌, ◌≡◌, ap, ◌∙◌, true, false, List, [], ◌∷◌, ◌++◌, Option, none, some, arith, ◌==◌,
  if◌then◌else◌,
}
use pserver.Kernel.{Kernel}
use pserver.Despatch
use pserver.Despatch.{CommandFun}
use pserver.Despatch.Laws.{despatch-add_command_deal, first_of, run_handler}
use pserver.Message.{Message, get_type}
use pserver.PackageList
use pserver.PackDeal.{ptl_test, commands, register, ptl_test_fun}
use pserver.Server.{type_error, Server, get_package}
use pserver.Threads.{PServer, is_running, deal, pack_deal_round, reply_by, log_received}

module _ {S : Type 0} (k : Kernel S) where
  -- The server whose table holds the commands of `PackageDeal` and nothing else.
  abbrev pub Registered : PServer S → Type 0
  Registered p = p.functions ≡ register log_received (reply_by k) Despatch.new

  abbrev pub popped : List (ℕ × Message) → PServer S → Server S
  popped rest p = record p.sockets {
    packages = record { messages = rest; permits = p.sockets.packages.permits - 1 };
  }

  abbrev pub handled : PServer S → Option (Server S) → Option (PServer S)
  handled p none = none
  handled p (some s) = some (record p { sockets = s })

  pub get_package_lem :
      (p : PServer S) (sock : ℕ) (msg : Message) (rest : List (ℕ × Message))
      → p.sockets.packages.messages ≡ (sock, msg) ∷ rest
      → 0 < p.sockets.packages.permits
      → get_package p.sockets ≡ (popped rest p, some (sock, msg))
  unfolding get_package PackageList.get_msg
  get_package_lem p sock msg rest e h = ground arith

  pub despatched :
      (p : PServer S) (sock type : ℕ) (msg : Message) (s : Server S)
      → Registered p
      → get_type msg ≡ some type
      → Despatch.despatch sock (some msg) p.functions s ≡ (
          if ptl_test == type
          then run_handler sock msg s (some (ptl_test_fun log_received (reply_by k)))
          else some (s, false))
  unfolding register first_of run_handler
  despatched p sock type msg s r t =
      let d = despatch-add_command_deal (commands log_received (reply_by k)) sock type msg s t in
      ap (λ f. Despatch.despatch sock (some msg) f s) r ∙ (d ∙ ground arith)

  -- While the server runs, with a packet in the queue, a permit for it, and the commands of
  -- `PackageDeal` registered, a round of the handler thread takes the oldest packet out. If it is
  -- of the test protocol, the effect is that of `PTL_Test` on the rest. A packet of any other type
  -- is dropped with one line in the log, and the sockets see nothing of it.
  pub pack_deal_round_lem :
      (p : PServer S) (sock type : ℕ) (msg : Message) (rest : List (ℕ × Message))
      → Registered p
      → is_running p ≡ true
      → p.sockets.packages.messages ≡ (sock, msg) ∷ rest
      → 0 < p.sockets.packages.permits
      → get_type msg ≡ some type
      → pack_deal_round k p ≡ (
          if type == ptl_test
          then handled p (ptl_test_fun log_received (reply_by k) sock msg (popped rest p))
          else some (record p {
            sockets = record (popped rest p) {
              entries = p.sockets.entries ++ type_error sock type ∷ [];
            };
          }))
  unfolding pack_deal_round deal run_handler
  pack_deal_round_lem p sock type msg rest r on e h t =
      let got = get_package_lem p sock msg rest e h in
      let d = despatched p sock type msg (popped rest p) r t in ground (arith, got, d)

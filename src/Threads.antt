-- ===== src/Threads.antt =====
-- server.h, server.cpp and main.cpp: the three threads of `PServer` beside the network thread. One
-- round of a thread's loop is one step; the packets pass through the queue of the socket server.
pub mod Timer
pub mod Handling
pub mod System
pub mod Safety
pub mod Draining
pub mod Lifecycle
pub mod Ending
pub mod Running
pub mod Answering
pub mod Response
pub mod Serving
pub mod Turns
pub mod Session
pub mod Network
pub mod Links
pub mod Many
pub mod Isolation
use pserver.Prelude.{
  ℕ, zero, suc, ◌+◌, ◌-◌, ◌*◌, ◌/◌, ◌%◌, ◌^◌, ◌≤◌, ◌<◌, ◌≡◌, refl, sym, ap, subst, ◌∙◌, ◌≢◌, ◌⊎◌,
  inl, inr, Bool, true, false, not, ◌&&◌, ◌||◌, List, [], ◌∷◌, ◌++◌, map, append_assoc, append-nil,
  Option, none, some, arith, leb, ltb, ◌==◌, ==_iff, if◌then◌else◌, Bool-cases, lt→ltb, not-ltb,
  ==_refl, ==_ne, Option-cases, length, get_elem?, get_or, set, count_if, take, drop, replicate,
  All, get_elem?-none, get_or-set_ne, length-append, length-set, length-take, length-drop,
  length-replicate, ◌>>=◌, ◌>>◌, Returns,
}
use pserver.Despatch.{CommandFun, despatch}
use pserver.HashTable.{Table}
use pserver.Kernel.{Kernel}
use pserver.Message.{Message, get_type}
use pserver.PackDeal.{commands, register, on_sock_close}
use pserver.Despatch
use pserver.Server.{
  Entry, received, type_error, timer, Server, get_package, send_msg, observe_connect_close,
}
use pserver.Server.Poll.{despatch_event}

-- The state that the threads share.
pub record PServer (S : Type 0) : Type 0 where
  pub running : Bool
  pub sockets : Server S
  pub functions : Table (CommandFun (Server S))
  pub last_check : ℕ

abbrev pub timer_timeout : ℕ
timer_timeout = 10

unfoldable pub is_running : {S : Type 0} → PServer S → Bool
is_running p = p.running

unfoldable pub stop : {S : Type 0} → PServer S → PServer S
stop p = record p { running = false }

-- `Sync` of the signal thread: the clock that the server reads is the cached one
unfoldable pub signal_round : {S : Type 0} → Kernel S → PServer S → PServer S
signal_round k p =
    if is_running p
    then record p { sockets = record p.sockets { cur_time = k.time p.sockets.world } }
    else p
  where
    open p use {sockets}

unfoldable pub timer_round : {S : Type 0} → PServer S → PServer S
timer_round p =
    let cur = p.sockets.cur_time in
    if is_running p && ltb timer_timeout (cur - p.last_check)
    then record p {
      last_check = cur;
      sockets = record p.sockets { entries = p.sockets.entries ++ timer ∷ [] };
    }
    else p

-- the line of `PTL_Test` on a packet
abbrev pub log_received : {S : Type 0} → ℕ → Server S → Server S
log_received sock s = record s { entries = s.entries ++ received sock ∷ [] }

module _ {S : Type 0} (k : Kernel S) where
  -- `PTL_Test` answers through `SendMsg`
  abbrev pub reply_by : ℕ → Message → Server S → Option (Server S)
  reply_by sock msg s = do (s', msg') ← send_msg k sock msg false s; some s'

  -- `PackageDeal()`: the table of commands, and the callback on closing
  unfoldable pub package_deal : PServer S → PServer S
  package_deal p = record p {
    sockets = observe_connect_close on_sock_close p.sockets;
    functions = register log_received reply_by p.functions;
  }

  -- what `PackDeal` does with a packet that it has taken, up to its deletion
  unfoldable pub deal : ℕ → Message → PServer S → Option (PServer S)
  deal sock msg p = do
    (sockets, done) ← despatch sock (some msg) p.functions p.sockets
    if done then some (record p { sockets = sockets }) else (do
      type ← get_type msg
      some (record p {
        sockets = record sockets { entries = sockets.entries ++ type_error sock type ∷ [] };
      }))

  -- one round of `PackDeal`
  unfoldable pub pack_deal_round : PServer S → Option (PServer S)
  unfolding deal
  pack_deal_round p =
      if is_running p
      then (let (sockets, node) = get_package p.sockets in
          elim node [
            | none ↦ some (record p { sockets = sockets })
            | some (sock, msg) ↦ deal sock msg (record p { sockets = sockets })
          ])
      else some p

  -- one round of `Run`
  unfoldable pub run_round : ℕ → PServer S → Option (Option (PServer S))
  run_round fuel p =
      if is_running p
      then (do
        out ← despatch_event k fuel p.sockets
        elim out [ none ↦ some none | some s ↦ some (some (record p { sockets = s })) ])
      else some (some p)

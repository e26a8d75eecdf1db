-- ===== src/Threads/Answering.antt =====
-- server.cpp, net_packdeal.cpp and net_server.cpp together: a request of the test protocol from the queue
-- to the bytes of its answer.
use pserver.Prelude.{ℕ, ◌<◌, ◌≡◌, ap, inl, inr, List, ◌++◌, some, arith, Option-cases}
use pserver.HashTable
use pserver.Kernel.{Kernel, TakesPart, eagain}
use pserver.Message.{Message, get_type}
use pserver.Message.Streams.{get_fields}
use pserver.PackDeal.{ptl_test, targets, answer}
use pserver.Server.{Server}
use pserver.Server.Outbox.{pending, waiting_length, WaitingIsSendable}
use pserver.Server.Sound.{IsSound}

module _ {S : Type 0} (k : Kernel S) (sock : ℕ) (out : S → List ℕ) where
  -- What the peer gets, now or once the socket takes more.
  abbrev pub output : Server S → List ℕ
  output s = out s.world ++ pending sock s

  -- The answer of the test protocol stands behind what was there.
  abbrev pub Answered : Server S → Server S → Type 0
  Answered s s' =
      (reply : Message) × (output s' ≡ output s ++ reply.buffer)
      × (get_type reply ≡ some ptl_test)
      × ((get_fields targets reply).1 ≡ answer)

  pub sendable :
      (s : Server S)
      → IsSound s
      → waiting_length (HashTable.find sock s.send_list) < 0xffff
      → WaitingIsSendable (HashTable.find sock s.send_list)
  sendable s v short = elim (Option-cases (HashTable.find sock s.send_list)) [
    | inl e ↦ rw e tt
    | inr (m, e) ↦ rw e (v.unsent sock m e, omega (arith, ap waiting_length e))
  ]

  -- Where `send` does not take all that it is given, `errno` says that the rest can wait.
  abbrev pub KeepsRest : S → Type 0
  KeepsRest w =
      (bytes : List ℕ)
      → TakesPart (k.send sock bytes w).0 bytes
      → k.errno (k.send sock bytes w).1 ≡ eagain

-- ===== src/Threads/Many.antt =====
-- net_server.cpp, server.cpp and net_packdeal.cpp: many connections at once, each with its own packets.
use pserver.Prelude.{ℕ, ◌≡◌, List, [], ◌∷◌, ◌++◌, map, Option, some, ◌>>=◌}
use mathlib.Core.List.{flatten}
use pserver.HashTable
use pserver.Kernel.{Kernel, TakesPart, eagain}
use pserver.Server.Reading.{Holding}
use pserver.Threads.{PServer}
use pserver.Threads.Answering.{output}
use pserver.Threads.Response.{response}
use pserver.Threads.Turns.{turn}
use pserver.Threads.Network.{NetworkLaws}
use pserver.Threads.Links.{Link}

module _ {S : Type 0} (k : Kernel S) (more : ℕ → List ℕ → S → S) where
  -- Turns of any sockets in any order.
  unfoldable pub turns : ℕ → List (ℕ × List ℕ) → PServer S → Option (PServer S)
  turns fuel [] p = some p
  turns fuel ((sock, bytes) ∷ cs) p = turn k sock (more sock) fuel bytes p >>= turns fuel cs

  module _ (stream out : ℕ → S → List ℕ) (laws : NetworkLaws k more stream out)
      (keeps : (sock : ℕ) (bytes : List ℕ) (w : S)
        → TakesPart (k.send sock bytes w).0 bytes
        → k.errno (k.send sock bytes w).1 ≡ eagain) where
    -- What a connection has got in the end.
    abbrev Served :
        (j : ℕ) (p p' : PServer S) (cs : List (ℕ × List ℕ))
        → Link k more stream out laws keeps j p cs
        → Type 0
    Served j p p' cs x =
        (output k j (out j) p'.sockets
          ≡ output k j (out j) p.sockets ++ flatten (map response x.gs))
        × Holding (HashTable.find j p'.sockets.recv_list) x.tail

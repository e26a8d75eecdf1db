-- ===== src/Threads/Session.antt =====
-- net_server.cpp, server.cpp and net_packdeal.cpp: a whole connection, however its bytes are cut into
-- events.
use pserver.Prelude.{ℕ, List, [], ◌∷◌, Option, some, ◌>>=◌}
use pserver.HashTable
use pserver.Kernel.{Kernel}
use pserver.Threads.{PServer}
use pserver.Threads.Turns.{turn}

module _ {S : Type 0} (k : Kernel S) (sock : ℕ) (more : List ℕ → S → S) where
  unfoldable pub session : ℕ → List (List ℕ) → PServer S → Option (PServer S)
  session fuel [] p = some p
  session fuel (bytes ∷ others) p = turn k sock more fuel bytes p >>= session fuel others

-- ===== src/Tests/Serving.antt =====
-- One connection, with two packets and a part of another in three pieces, on a socket that takes three
-- bytes of each answer at once.
use pserver.Prelude.{ℕ, List, [], ◌∷◌, ◌++◌, none, length, take, min}
use pserver.HashTable
use pserver.Kernel.{Kernel, sent}
use pserver.Server
use pserver.Server.Setup
use pserver.Threads.Answering.{output}
use pserver.Threads.System.{System}
use pserver.Tests.Listening.{listening}
use pserver.Tests.{World, pipe}

abbrev link : Kernel World
link = record pipe {
  send = λ sock bytes w. (
    sent (min 3 (length bytes)),
    record w { output = w.output ++ take (min 3 (length bytes)) bytes; error = 11 },
  );
}

abbrev more : List ℕ → World → World
more bytes w = record w { input = w.input ++ bytes }

abbrev quiet : World
quiet = record { input = []; output = []; error = 0 }

abbrev first : System World
first = record { server = listening link quiet; held = none }

abbrev pieces : List (List ℕ)
pieces = (0 ∷ 0 ∷ []) ∷ (1 ∷ 0 ∷ 1 ∷ 0 ∷ 9 ∷ []) ∷ (0 ∷ 65 ∷ 3 ∷ []) ∷ []

-- a packet of the test protocol, and one of type 9 with one byte
abbrev packets : List (List ℕ)
packets = (0 ∷ 0 ∷ 1 ∷ 0 ∷ []) ∷ (1 ∷ 0 ∷ 9 ∷ 0 ∷ 65 ∷ []) ∷ []

abbrev part : List ℕ
part = 3 ∷ []

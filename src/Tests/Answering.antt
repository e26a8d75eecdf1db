-- ===== src/Tests/Answering.antt =====
-- One request of the test protocol, from the socket to its answer.
use pserver.Prelude.{[], ◌∷◌, Option, none, some}
use pserver.HashTable
use pserver.Message.{Message}
use pserver.Message.Transfer
use pserver.Message.Transfer.{count}
use pserver.PackageList
use pserver.Server
use pserver.Server.Setup
use pserver.Server.{Server, epoll_in, get_package}
use pserver.Server.Poll.{on_event}
use pserver.Threads.{PServer, deal}
use pserver.Threads.System.{System}
use pserver.Threads.{run_round, stop, timer_round}
use pserver.Tests.Listening.{listening}
use pserver.Tests.{World, pipe, pipe-StreamLaws}

abbrev request : World
request = record { input = 0 ∷ 0 ∷ 1 ∷ 0 ∷ []; output = []; error = 0 }

abbrev fresh : System World
fresh = record { server = listening pipe request; held = none }

abbrev received : Option (Option (Server World))
received = on_event pipe 10 (5, epoll_in) fresh.server.sockets

abbrev after : Option (Option (Server World)) → Server World
after none = fresh.server.sockets
after (some none) = fresh.server.sockets
after (some (some s)) = s

abbrev asked : PServer World
asked = record fresh.server { sockets = after received }

-- the request as the network thread queued it
abbrev packet : Message
packet = record { read_pos = 4; buffer = 0 ∷ 0 ∷ 1 ∷ 0 ∷ []; recv_len = 4; send_begin = 0 }

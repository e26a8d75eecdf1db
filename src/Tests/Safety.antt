-- ===== src/Tests/Safety.antt =====
-- The whole server: the theorems of the threads on a run with two packets.
use pserver.Prelude.{◌≡◌, refl, subst, true, [], ◌∷◌, Option, none, some, arith}
use pserver.HashTable
use pserver.Kernel.{TakesAtMost}
use pserver.Message.{Message}
use pserver.Message.Transfer
use pserver.Message.Transfer.{count}
use pserver.PackageList
use pserver.Server
use pserver.Server.Setup
use pserver.Server.{Server, epoll_in, get_package}
use pserver.Server.Loop.{on_recv}
use pserver.Server.Poll.{on_event}
use pserver.Threads.{PServer, is_running}
use pserver.Threads.System.{System, start, event, take_package, Reach, then_step}
use pserver.Threads.Safety.{IsSafe, Reach-IsSafe}
use pserver.Threads.{run_round, stop, timer_round}
use pserver.Tests.Listening.{listening, listening-Reach}
use pserver.Tests.{World, pipe, pipe-StreamLaws}

pub pipe-TakesAtMost : TakesAtMost pipe
unfolding pipe
pipe-TakesAtMost sock bytes n s s' e = ground arith

-- a packet of type 9 with one byte, and one of the test protocol
abbrev pub world : World
world = record { input = 1 ∷ 0 ∷ 9 ∷ 0 ∷ 65 ∷ 0 ∷ 0 ∷ 1 ∷ 0 ∷ []; output = []; error = 0 }

abbrev fresh : System World
fresh = record { server = listening pipe world; held = none }

abbrev received : Option (Option (Server World))
received = on_event pipe 10 (5, epoll_in) fresh.server.sockets

abbrev after : Option (Option (Server World)) → Server World
after none = fresh.server.sockets
after (some none) = fresh.server.sockets
after (some (some s)) = s

abbrev pub with_packets : PServer World
with_packets = record fresh.server { sockets = after received }

received_both : received ≡ some (some (after received))
unfolding on_event on_recv start Server.new pserver.Threads.package_deal
    Server.observe_connect_close Setup.init Setup.bind Setup.set_sock HashTable.find
    pserver.HashTable.Nodes.find_node HashTable.new pserver.Message.new pserver.Message.set_length
    pserver.Bytes.poke pserver.Bytes.le_bytes pserver.Bytes.resize Transfer.recv pipe
    pserver.Message.get_length pserver.Bytes.peek_u16 pserver.Bytes.peek Transfer.recv_done
    pserver.PackageList.add_msg pserver.HashTable.Nodes.erase_node HashTable.bucket_loop
    HashTable.erase HashTable.init HashTable.insert HashTable.update_value HashTable.with_buckets
    Transfer.recv_body Transfer.recv_head Transfer.store pserver.PackageList.new
    pserver.Server.Loop.after_loop pserver.Server.Loop.finish pserver.Server.Loop.recv_loop
    Server.update_connect_time pserver.Tests.pipe_recv pserver.HashTable.Nodes.assign_node
received_both = refl

pub fresh-is_running : is_running fresh.server ≡ true
unfolding is_running start Setup.init Setup.bind Setup.set_sock pipe pserver.Threads.package_deal
fresh-is_running = refl

pub with_packets-Reach :
    Reach pipe (start pipe world 7) (record { server = with_packets; held = none })
unfolding start
with_packets-Reach =
    then_step fresh (record { server = with_packets; held = none }) (listening-Reach pipe world)
      (event fresh.server none 10 (5, epoll_in) (after received) fresh-is_running received_both)

with_packets-is_running : is_running with_packets ≡ true
unfolding is_running start Setup.init Setup.bind Setup.set_sock pipe pserver.Threads.package_deal
with_packets-is_running = refl

-- the packet of type 9, as the network thread queued it
abbrev first : Message
first = record { read_pos = 4; buffer = 1 ∷ 0 ∷ 9 ∷ 0 ∷ 65 ∷ []; recv_len = 5; send_begin = 0 }

abbrev with_first : PServer World
with_first = record with_packets { sockets = (get_package with_packets.sockets).0 }

took_first : (get_package with_packets.sockets).1 ≡ some (5, first)
unfolding get_package PackageList.get_msg PackageList.pop_front on_event on_recv start Server.new
    pserver.Threads.package_deal Server.observe_connect_close Setup.init Setup.bind Setup.set_sock
    HashTable.find pserver.HashTable.Nodes.find_node HashTable.new pserver.Message.new
    pserver.Message.set_length pserver.Bytes.poke pserver.Bytes.le_bytes pserver.Bytes.resize
    Transfer.recv pipe pserver.Message.get_length pserver.Bytes.peek_u16 pserver.Bytes.peek
    Transfer.recv_done pserver.PackageList.add_msg pserver.HashTable.Nodes.erase_node
    HashTable.bucket_loop HashTable.erase HashTable.init HashTable.insert HashTable.update_value
    HashTable.with_buckets Transfer.recv_body Transfer.recv_head Transfer.store
    pserver.PackageList.new pserver.Server.Loop.after_loop pserver.Server.Loop.finish
    pserver.Server.Loop.recv_loop Server.update_connect_time pserver.Tests.pipe_recv
    pserver.HashTable.Nodes.assign_node
took_first = refl

with_first-Reach :
    Reach pipe (start pipe world 7) (record { server = with_first; held = some (5, first) })
with_first-Reach =
    subst (λ h. Reach pipe (start pipe world 7) (record { server = with_first; held = h }))
      took_first
      (then_step (record { server = with_packets; held = none })
        (record { server = with_first; held = (get_package with_packets.sockets).1 })
        with_packets-Reach (take_package with_packets with_packets-is_running))

Reach-IsSafe_example : IsSafe pipe (record { server = with_first; held = some (5, first) })
Reach-IsSafe_example =
    Reach-IsSafe pipe pipe-TakesAtMost world 7
      (record { server = with_first; held = some (5, first) }) with_first-Reach

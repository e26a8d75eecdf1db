-- ===== src/Tests/Isolation.antt =====
-- Two connections: 5 with packets in the queue, while 6 comes, is closed, and the clock goes on.
use pserver.Prelude.{◌≡◌, refl, true, Option, none, some, arith}
use pserver.HashTable
use pserver.Kernel.{Events, no_events}
use pserver.Message.Transfer
use pserver.PackageList
use pserver.Server
use pserver.Server.Setup
use pserver.Server.{Server, epoll_in}
use pserver.Server.Isolation.{Same}
use pserver.Server.Loop.{on_recv}
use pserver.Server.Parts.{socket_of, deletes_packages}
use pserver.Server.Poll.{on_event}
use pserver.Threads.{PServer, signal_round}
use pserver.Threads.Isolation.{OtherSteps, no_steps, event, part, clock, others-Same}
use pserver.Threads.System.{start}
use pserver.Tests.{World, pipe}
use pserver.Tests.Safety.{world, pipe-TakesAtMost, with_packets, with_packets-Reach}

abbrev hang_up : Events
hang_up = record no_events { epollin = true; epollhup = true }

abbrev after : Option (Option (Server World)) → Server World
after none = with_packets.sockets
after (some none) = with_packets.sockets
after (some (some s)) = s

abbrev closed : PServer World
closed = record with_packets {
  sockets = after (on_event pipe 10 (6, hang_up) with_packets.sockets);
}

closes : on_event pipe 10 (6, hang_up) with_packets.sockets ≡ some (some closed.sockets)
unfolding on_event on_recv start Server.new pserver.Threads.package_deal
    Server.observe_connect_close Setup.init Setup.bind Setup.set_sock HashTable.find
    pserver.HashTable.Nodes.find_node HashTable.new pserver.Message.new pserver.Message.set_length
    pserver.Bytes.poke pserver.Bytes.le_bytes pserver.Bytes.resize Transfer.recv pipe
    pserver.Message.get_length pserver.Bytes.peek_u16 pserver.Bytes.peek Transfer.recv_done
    pserver.PackageList.add_msg pserver.HashTable.Nodes.erase_node HashTable.bucket_loop
    HashTable.erase HashTable.init HashTable.insert HashTable.update_value HashTable.with_buckets
    Transfer.recv_body Transfer.recv_head Transfer.store pserver.PackageList.new
    pserver.Server.Loop.after_loop pserver.Server.Loop.finish pserver.Server.Loop.recv_loop
    Server.update_connect_time pserver.Tests.pipe_recv pserver.HashTable.Nodes.assign_node
    Server.close_connect PackageList.del_msg PackageList.remove_sock
closes = refl

-- once more a piece of the close, on its own
abbrev swept : PServer World
swept = record closed {
  sockets = record closed.sockets { packages = PackageList.del_msg 6 closed.sockets.packages };
}

run : OtherSteps pipe 5 with_packets (signal_round pipe swept)
unfolding socket_of
run = clock swept (
    part closed swept.sockets (deletes_packages 6)
      (event with_packets 6 10 hang_up closed.sockets no_steps (λ e. absurd (omega arith)) closes)
      (λ e. absurd (omega arith)))

others-Same_example : Same 5 with_packets.sockets (signal_round pipe swept).sockets
others-Same_example =
    others-Same pipe 5 pipe-TakesAtMost world 7 with_packets (signal_round pipe swept) none
      with_packets-Reach run

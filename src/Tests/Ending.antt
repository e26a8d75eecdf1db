-- ===== src/Tests/Ending.antt =====
-- The end of connections and of the program: the theorems on a small machine.
use pserver.Prelude.{
  ◌≡◌, refl, ap, ◌≢◌, true, false, [], ◌∷◌, Option, none, some, arith, length, length-append,
}
use pserver.Server.Termination.Events.{WaitingLaws}
use pserver.Server.Termination.Despatch.{despatch_event-ends}
use pserver.HashTable
use pserver.Kernel.{Kernel, got}
use pserver.Message.Transfer
use pserver.Message.Transfer.{count}
use pserver.Server
use pserver.Server.{Server, epoll_in, get_package}
use pserver.Server.Poll.{on_event}
use pserver.Threads.{PServer, is_running, deal}
use pserver.Threads.System.{start}
use pserver.Server.Hangup.{hangup, shut, on_event-closes_twice}
use pserver.Message.Padding.{receiving}
use pserver.Server.Setup
use pserver.Server.Setup.{SetupCalls}
use pserver.Server.Poll.{despatch_event, on_events}
use pserver.Server.Loop.{on_recv}
use pserver.Threads.{run_round, stop, timer_round}
use pserver.Threads.Lifecycle.{new_process, Process, init, serve}
use pserver.Threads.Ending.{ComesBack, serve-ends}
use pserver.Tests.{World, pipe-StreamLaws, pipe}
use pserver.PackDeal.{on_sock_close}
use pserver.Tests.Listening.{ready}
use pserver.Tests.Safety.{world}

-- a peer that has closed its end
abbrev ended : Kernel World
ended = record pipe { recv = λ sock count w. (got [], w) }

abbrev connected : Server World
connected = record (Server.observe_connect_close on_sock_close (Server.new world)) {
  recv_list = HashTable.insert 5 (receiving []) (HashTable.with_buckets 4);
}

connected-times : length connected.last_connect ≡ 4097
unfolding Server.new Server.observe_connect_close
connected-times = refl

connected-on_close : connected.on_close ≡ some on_sock_close
unfolding Server.new Server.observe_connect_close
connected-on_close = refl

connected-find : HashTable.find 5 connected.recv_list ≡ some (receiving [])
unfolding HashTable.find HashTable.insert HashTable.with_buckets pserver.HashTable.Nodes.find_node
    Server.new Server.observe_connect_close
connected-find = refl

connected-recv :
    Transfer.recv (ended.recv 5) (receiving []) connected.world
    ≡ some (receiving [], count 0, world)
unfolding Transfer.recv Transfer.recv_head Transfer.store pserver.Bytes.poke Server.new
    Server.observe_connect_close
connected-recv = refl

connected-other : connected.listen_sock ≢ 5
unfolding Server.new Server.observe_connect_close
connected-other = omega arith

on_event-closes_twice_example :
    (s' : Server World) × (on_event ended 1 (5, hangup) connected ≡ some (some s'))
    × (s'.world ≡ shut ended 5 (shut ended 5 world))
    × (s'.entries ≡ on_sock_close 5 (on_sock_close 5 connected.entries))
on_event-closes_twice_example =
    on_event-closes_twice ended 5 0 connected on_sock_close (receiving []) (receiving []) world
      connected-other (omega arith) connected-times connected-on_close connected-find connected-recv

-- A machine on which one socket has bytes.
abbrev busy : Kernel World
busy = record pipe { epoll_wait = λ w. ((5, epoll_in) ∷ [], w) }

abbrev process : Process World
process = new_process busy ready world 7

-- The server behind `Init`, behind the round that reads the two packets of 5, and behind the next.
abbrev set_up : PServer World
set_up = (init busy ready [] process).1.server

abbrev after : Option (Option (PServer World)) → PServer World
after none = set_up
after (some none) = set_up
after (some (some p)) = p

abbrev fed : PServer World
fed = after (run_round busy 10 set_up)

abbrev drained : PServer World
drained = after (run_round busy 10 (timer_round fed))

busy-ComesBack : ComesBack busy ready 10 (timer_round ∷ []) set_up
unfolding run_round is_running despatch_event on_events on_event on_recv timer_round start init
    Server.new pserver.Threads.package_deal Server.observe_connect_close Setup.init Setup.bind
    Setup.set_sock HashTable.find pserver.HashTable.Nodes.find_node HashTable.new
    pserver.Message.new pserver.Message.set_length pserver.Bytes.poke pserver.Bytes.le_bytes
    pserver.Bytes.resize Transfer.recv pipe pserver.Message.get_length pserver.Bytes.peek_u16
    pserver.Bytes.peek Transfer.recv_done pserver.PackageList.add_msg
    pserver.HashTable.Nodes.erase_node HashTable.bucket_loop HashTable.erase HashTable.init
    HashTable.insert HashTable.update_value HashTable.with_buckets Transfer.recv_body
    Transfer.recv_head Transfer.store pserver.PackageList.new pserver.Server.Loop.after_loop
    pserver.Server.Loop.finish pserver.Server.Loop.recv_loop Server.update_connect_time
    pserver.Tests.pipe_recv pserver.HashTable.Nodes.assign_node
busy-ComesBack = (fed, refl, (drained, refl))

ready-init : (init busy ready [] process).0 ≡ true
unfolding init Setup.init Setup.bind Setup.set_sock pipe start pserver.Threads.package_deal
    Server.observe_connect_close Server.new
ready-init = refl

serve-ends_example :
    (p' : Process World) × (serve busy ready 10 (timer_round ∷ stop ∷ timer_round ∷ []) [] process
      ≡ some (some (0, p')))
    × (is_running p'.server ≡ false)
    × (p'.threads ≡ [])
    × (p'.deleted ≡ true)
serve-ends_example =
    serve-ends busy ready 10 (timer_round ∷ []) (timer_round ∷ []) [] process busy-ComesBack
      ready-init

busy-WaitingLaws : WaitingLaws busy (λ w. length w.input)
unfolding pipe
busy-WaitingLaws = record {
  recv_got = λ sock n w w' bytes e.
      let (split, _) = (pipe-StreamLaws sock).recv_got n w w' bytes e in
      omega (arith, ap length split, length-append bytes w'.input);
  recv_none = λ sock n w w' e. omega (arith, ap length ((pipe-StreamLaws sock).recv_none n w w' e));
  send_keeps = λ sock bytes w. omega arith;
  ctl_keeps = λ op sock e w. omega arith;
  close_keeps = λ sock w. omega arith;
  set_sock_keeps = λ sock w. omega arith;
  accept_some = λ listener w h. absurd (omega arith);
  accept_none = λ listener w. omega arith;
}

despatch_event-ends_example :
    despatch_event busy 10 (Server.observe_connect_close on_sock_close (Server.new world))
    ≢ some none
unfolding Server.observe_connect_close Server.new pipe
despatch_event-ends_example =
    despatch_event-ends busy on_sock_close (λ w. length w.input) busy-WaitingLaws 10
      (Server.observe_connect_close on_sock_close (Server.new world)) refl (omega arith)

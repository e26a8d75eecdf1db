-- ===== src/Tests/Listening.antt =====
-- server.cpp, `PServer::Init`: the server with its listening socket, as the tests of the threads use it.
use pserver.Prelude.{true, [], none}
use pserver.Kernel.{Kernel}
use pserver.Server.{max_conn}
use pserver.Server.Setup
use pserver.Server.Setup.{SetupCalls}
use pserver.Threads.{PServer}
use pserver.Threads.System.{start, inits, binds, Reach, started, then_step}

-- A system on which every call of the setup succeeds.
abbrev pub ready : {S : Type 0} → SetupCalls S
ready = record {
  ignore_sigpipe = λ w. (true, w);
  set_rlimit = λ n w. (true, w);
  epoll_create = λ n w. (3, w);
  socket = λ w. (4, w);
  reuse_addr = λ sock w. (true, w);
  bind = λ sock ip port w. (true, w);
  listen = λ sock n w. (true, w);
  keep_alive = λ sock w. w;
  non_block = λ sock w. w;
  port_of = λ port. 8000;
}

module _ {S : Type 0} (k : Kernel S) (world : S) where
  abbrev fresh : PServer S
  fresh = (start k world 7).server

  abbrev prepared : PServer S
  prepared = record fresh { sockets = (Setup.init k ready max_conn fresh.sockets).2 }

  abbrev pub listening : PServer S
  listening = record prepared { sockets = (Setup.bind k ready none [] prepared.sockets).2 }

  pub listening-Reach : Reach k (start k world 7) (record { server = listening; held = none })
  unfolding start
  listening-Reach =
      then_step (record { server = prepared; held = none })
        (record { server = listening; held = none })
        (then_step (start k world 7) (record { server = prepared; held = none }) started
          (inits ready max_conn fresh none))
        (binds ready none [] prepared none)

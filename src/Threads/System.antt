-- ===== src/Threads/System.antt =====
-- server.cpp and net_server.cpp: the threads of the server together. A step is `Init` or `Bind` of the
-- sockets, one event of the network thread or a part of one, one of the two halves of a round of the handler thread, a round of the timer
-- or of the clock, a signal that stops the server, or a change outside the program.
use pserver.Prelude.{ℕ, ◌≡◌, true, Option, none, some}
use pserver.Despatch
use pserver.Kernel.{Kernel, Events}
use pserver.Message.{Message}
use pserver.Server
use pserver.Server.{get_package}
use pserver.Lua.{Text}
use pserver.Server.Parts.{Part}
use pserver.Server.Setup
use pserver.Server.Setup.{SetupCalls}
use pserver.Server.Poll.{on_event}
use pserver.Threads.{PServer, is_running, stop, signal_round, timer_round, package_deal, deal}

-- The shared state, and the packet that the handler thread has taken out of the queue.
pub record System (S : Type 0) : Type 0 where
  pub server : PServer S
  pub held : Option (ℕ × Message)

-- `PServer` as its constructor leaves it; `main` has set the clock to `now`.
unfoldable pub start : {S : Type 0} → Kernel S → S → ℕ → System S
start k world now = record {
  server = package_deal k (record {
    running = true;
    sockets = record (Server.new world) { cur_time = now };
    functions = Despatch.new;
    last_check = now;
  });
  held = none;
}

-- The calls of the setup, the events and their parts may come in any order and number, whatever the
-- system answers and `epoll_wait` reports; `PServer::Init` makes the two calls of the setup once, when
-- the other threads are there and before the first event.
pub data Step {S : Type 0} (k : Kernel S) : System S → System S → Type 0 where
  inits :
      (c : SetupCalls S) (max_con : ℕ) (p : PServer S) (held : Option (ℕ × Message))
      → Step k
          (record { server = p; held = held })
          (record {
            server = record p { sockets = (Setup.init k c max_con p.sockets).2 };
            held = held;
          })
  binds :
      (c : SetupCalls S) (ip : Option Text) (port : Text) (p : PServer S)
      (held : Option (ℕ × Message))
      → Step k
          (record { server = p; held = held })
          (record {
            server = record p { sockets = (Setup.bind k c ip port p.sockets).2 };
            held = held;
          })
  event :
      (p : PServer S) (held : Option (ℕ × Message)) (fuel : ℕ) (e : ℕ × Events)
      (s : Server.Server S)
      → is_running p ≡ true
      → on_event k fuel e p.sockets ≡ some (some s)
      → Step k
          (record { server = p; held = held })
          (record { server = record p { sockets = s }; held = held })
  part :
      (p : PServer S) (held : Option (ℕ × Message)) (s : Server.Server S)
      → Part k p.sockets s
      → Step k
          (record { server = p; held = held })
          (record { server = record p { sockets = s }; held = held })
  take_package :
      (p : PServer S)
      → is_running p ≡ true
      → Step k
          (record { server = p; held = none })
          (record {
            server = record p { sockets = (get_package p.sockets).0 };
            held = (get_package p.sockets).1;
          })
  deal_package :
      (p p' : PServer S) (sock : ℕ) (msg : Message)
      → deal k sock msg p ≡ some p'
      → Step k
          (record { server = p; held = some (sock, msg) })
          (record { server = p'; held = none })
  timer_wakes :
      (p : PServer S) (held : Option (ℕ × Message))
      → Step k (record { server = p; held = held }) (record { server = timer_round p; held = held })
  clock_syncs :
      (p : PServer S) (held : Option (ℕ × Message))
      → Step k
          (record { server = p; held = held })
          (record { server = signal_round k p; held = held })
  stops :
      (p : PServer S) (held : Option (ℕ × Message))
      → Step k (record { server = p; held = held }) (record { server = stop p; held = held })
  outside :
      (p : PServer S) (held : Option (ℕ × Message)) (world : S)
      → Step k
          (record { server = p; held = held })
          (record {
            server = record p { sockets = record p.sockets { world = world } };
            held = held;
          })

-- The systems that come up from `a`.
pub data Reach {S : Type 0} (k : Kernel S) (a : System S) : System S → Type 0 where
  started : Reach k a a
  then_step : (b c : System S) → Reach k a b → Step k b c → Reach k a c

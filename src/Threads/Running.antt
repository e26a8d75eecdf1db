-- ===== src/Threads/Running.antt =====
-- main.cpp and server.cpp: the run of the program goes through the states of the threads together.
use pserver.Prelude.{none}
use pserver.Kernel.{Kernel}
use pserver.Server.{Server}
use pserver.Server.Setup
use pserver.Server.Setup.{SetupCalls}
use pserver.Threads.{PServer}
use pserver.Threads.Lifecycle.{Ran, finished, still_running, out_of_fuel}
use pserver.Threads.System.{System, Reach}

module _ {S : Type 0} (k : Kernel S) (c : SetupCalls S) (a : System S) where
  -- No packet is in the hands of the handler thread.
  abbrev pub Reached : PServer S → Type 0
  Reached p = Reach k a (record { server = p; held = none })

  -- What another thread does between two rounds are steps.
  abbrev pub IsSteps : (PServer S → PServer S) → Type 0
  IsSteps other = (p : PServer S) → Reached p → Reached (other p)

  -- The loop of `Run` has come to its end in a state of the threads, or goes on from one.
  abbrev ReachedRan : Ran S → Type 0
  ReachedRan (finished p) = Reached p
  ReachedRan (still_running p) = Reached p
  ReachedRan out_of_fuel = Unit {0}

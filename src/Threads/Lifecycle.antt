-- ===== src/Threads/Lifecycle.antt =====
-- server.h, server.cpp, psignal.cpp and main.cpp: how the program starts and how it ends.
use pserver.Prelude.{
  ℕ, Bool, true, false, not, List, [], ◌∷◌, ◌++◌, Option, none, some, if◌then◌else◌, ◌>>=◌,
}
use pserver.Config
use pserver.Config.{Config}
use pserver.Db.{Mysql, Pool}
use pserver.Kernel.{Kernel}
use pserver.Lua.{Text, Lua}
use pserver.Server.{Server, max_conn}
use pserver.Server.Setup
use pserver.Server.Setup.{SetupCalls, SetupError}
use pserver.Threads.{PServer, is_running, stop, run_round}
use pserver.Threads.System
use pserver.Threads.System.{System}

-- The threads behind `m_thread`.
pub data Thread : Type 0 where
  package_deal_thread timer_thread signal_thread : Thread

-- One `PServer` object with its threads. `deleted` once `main` has deleted it, and `published` once
-- `g_pServer` points to it; `signals` are those logged, and `aborted` is what `abort` leaves.
pub record Process (S : Type 0) : Type 0 where
  pub server : PServer S
  pub threads : List Thread
  pub published : Bool
  pub deleted : Bool
  pub errors : List SetupError
  pub signals : List ℕ
  pub aborted : Bool

-- How the loop of `Run` stands after some rounds: it has ended, it goes on, or a loop on a socket ran out
-- of fuel.
pub data Ran (S : Type 0) : Type 0 where
  finished still_running : PServer S → Ran S
  out_of_fuel : Ran S

module _ {S : Type 0} (k : Kernel S) (c : SetupCalls S) where
  abbrev with_sockets : Bool × List SetupError × Server S → Process S → Process S
  with_sockets (done, errors, s) p = record p {
    server = record p.server { sockets = s };
    errors = p.errors ++ errors;
  }

  -- `PServer::Init`: the threads start before the sockets are there
  unfoldable pub init : Text → Process S → Bool × Process S
  init port p =
      let p1 = record p { threads = package_deal_thread ∷ timer_thread ∷ signal_thread ∷ [] } in
      let ready = Setup.init k c max_conn p1.server.sockets in
      let p2 = with_sockets ready p1 in
      if not ready.0
      then (false, p2)
      else (let bound = Setup.bind k c none port p2.server.sockets in
          (bound.0, with_sockets bound p2))

  -- `Join`: it comes back once the loop of each thread has ended, which the flag lets happen
  unfoldable pub join : Process S → Option (Process S)
  join p = if is_running p.server then none else some (record p { threads = [] })

  -- The loop of `Run`. `others` is what the other threads do behind each round.
  unfoldable pub run_loop : ℕ → List (PServer S → PServer S) → PServer S → Option (Ran S)
  run_loop fuel [] p = some (if is_running p then still_running p else finished p)
  run_loop fuel (other ∷ others) p =
      if is_running p
      then (do
        out ← run_round k fuel p
        elim out [ none ↦ some out_of_fuel | some q ↦ run_loop fuel others (other q) ])
      else some (finished p)

  -- `new PServer`, in `main` behind `Sync`
  abbrev pub new_process : S → ℕ → Process S
  new_process world now = record {
    server = (System.start k world now).server;
    threads = [];
    published = false;
    deleted = false;
    errors = [];
    signals = [];
    aborted = false;
  }

  -- `main` behind the configuration, with the code that it returns; the inner `none` is a server that
  -- has not stopped by then
  unfoldable pub serve :
      ℕ → List (PServer S → PServer S) → Text → Process S → Option (Option (ℕ × Process S))
  unfolding init join run_loop
  serve fuel others port p =
      let (ready, p1) = init port p in
      if not ready then some (some (0, record p1 { deleted = true })) else (do
        let p2 = record p1 { published = true }
        ran ← run_loop fuel others p2.server
        elim ran [
          | finished s ↦ do
            p3 ← join (record p2 { server = s })
            some (some (0, record p3 { deleted = true }))
          | _ ↦ some none
        ])

  -- `main`; the pool is that of the database, and there is no process where the configuration fails
  unfoldable pub main :
      {V W : Type 0}
      → Lua V
      → (Text → ℕ)
      → Mysql W
      → ℕ
      → List (PServer S → PServer S)
      → ℕ
      → Config
      → Pool W
      → S
      → Option (Option (ℕ × Option (Process S) × Pool W))
  unfolding serve
  main lua atoi mysql fuel others now config pool world = do
    (config', loaded) ← Config.load lua atoi config
    let (pool', opened) = Config.init_db mysql config'.db pool
    if not loaded
        then some (some (1, none, pool))
        else (if not opened then some (some (2, none, pool')) else (do
          out ← serve fuel others config'.port (new_process world now)
          elim out [ none ↦ some none | some (code, p) ↦ some (some (code, some p, pool')) ]))

-- `SignalHandler`: without `g_pServer` it only logs
unfoldable pub signal_handler : {S : Type 0} → ℕ → Process S → Process S
signal_handler sig p =
    let logged = record p { signals = p.signals ++ sig ∷ [] } in
    if p.published then record logged { server = stop p.server } else logged

-- `SignalHandlerWithCore` logs once more and aborts
unfoldable pub signal_handler_with_core : {S : Type 0} → ℕ → Process S → Process S
unfolding signal_handler
signal_handler_with_core sig p =
    record (signal_handler sig (record p { signals = p.signals ++ sig ∷ [] })) { aborted = true }

-- ===== src/Tests/Services.antt =====
-- Logs, connections, signals and times: the theorems of the services on concrete values.
use pserver.Prelude.{
  ℕ, ◌+◌, ◌≤◌, ◌≡◌, refl, Bool, true, false, not, ◌||◌, List, [], ◌∷◌, none, some, arith, ◌==◌,
  if◌then◌else◌,
}
use pserver.Singleton.{Callers, entering, returning, turns, Agree, turns-Agree}
use pserver.Logs.{Printer, PLog, new_log, write_log}
use pserver.Logs.Laws.{IsOpen, write_log_lem}
use pserver.Db
use pserver.Db.{Db, Mysql, Pool, NextResult, more_results, no_more, next_failed}
use pserver.Db.Query.{clear_result, cleared, FreeLaws, clear_result_lem}
use pserver.Db.Sharing.{acquire, dispose, run, uses, stack_of, InitLaws, run-exclusive}
use pserver.Signals.{Actions, default, regist, wanted, regist-wanted, sigterm}
use pserver.Time.{TimePrint}

-- a printer that knows the directive `%`, which takes an argument of one digit
abbrev rendered : List ℕ → List ℕ → List ℕ × List ℕ
rendered [] args = ([], args)
rendered (char_ ∷ rest) [] = (char_ ∷ rest, [])
rendered (char_ ∷ rest) (a ∷ args) =
    if char_ == 37
    then (let (text, left) = rendered rest args in ((48 + a) ∷ text, left))
    else (let (text, left) = rendered rest (a ∷ args) in (char_ ∷ text, left))

abbrev printer : Printer ℕ
printer = record { render = rendered; stamp = λ simple now. now ∷ []; exists = λ path. false }

abbrev open_log : PLog
open_log = record new_log { file = some []; show_time = true }

abbrev logs : List PLog
logs = open_log ∷ open_log ∷ open_log ∷ open_log ∷ []

write_log_lem_example : write_log printer 1 0 (60 ∷ []) (104 ∷ 37 ∷ []) (3 ∷ []) logs ≡ none
write_log_lem_example =
    write_log_lem printer 1 0 (60 ∷ []) (104 ∷ 37 ∷ []) (3 ∷ []) logs ([] ∷ [] ∷ [] ∷ [] ∷ []) refl
      (omega arith) (o, (o, (o, (o, tt))))
  where
    o : IsOpen printer open_log []
    o = record { opened = refl; timed = refl }

-- A client library whose state is the next handle, with the results that can be freed.
abbrev pub Store : Type 0
Store = ℕ × List ℕ

abbrev pub is_live : ℕ → List ℕ → Bool
is_live r [] = false
is_live r (x ∷ xs) = x == r || is_live r xs

abbrev pub without : ℕ → List ℕ → List ℕ
without r [] = []
without r (x ∷ xs) = if x == r then without r xs else x ∷ without r xs

is_live-without : (r : ℕ) (xs : List ℕ) → is_live r (without r xs) ≡ false
is_live-without r [] = refl
is_live-without r (x ∷ xs) = ground (arith, is_live-without r xs)

abbrev pub client : Mysql Store
client = record {
  init = λ w. (w.0, (w.0 + 1, w.1));
  options = λ h o w. w;
  real_connect = λ h c w. (true, w);
  select_db = λ h t w. (true, w);
  set_character_set = λ h t w. (true, w);
  close = λ h w. w;
  query = λ h t w. (true, w);
  store_result = λ h w. (some 3, (w.0, 3 ∷ w.1));
  free_result = λ r w. if is_live r w.1 then some (w.0, without r w.1) else none;
  next_result = λ h w. (next_failed, w);
  fetch_row = λ r w. (none, w);
  num_rows = λ r w. 0;
  insert_id = λ h w. 0;
  error = λ h w. [];
}

client-FreeLaws : FreeLaws client (λ r w. is_live r w.1)
client-FreeLaws = record {
  free_live = λ r w e. ((w.0, without r w.1), rw e, is_live-without r w.1);
  free_dead = λ r w e. rw e;
  next_live = λ r h w. refl;
}

clear_result_lem_example :
    (w1 : Store) × (client.free_result 3 (1, 3 ∷ []) ≡ some w1)
    × (clear_result client 2 (record { mysql = 0; result = some 3 }) (1, 3 ∷ [])
        ≡ cleared client (record { mysql = 0; result = some 3 }) (client.next_result 0 w1))
clear_result_lem_example =
    clear_result_lem client (λ r w. is_live r w.1) client-FreeLaws 2
      (record { mysql = 0; result = some 3 }) (1, 3 ∷ []) 3 (omega arith) refl refl

abbrev pub pool : Pool Store
pool = record { pool_data = none; world = (0, []) }

client-InitLaws : InitLaws client (λ w. w.0)
unfolding Db.connect
client-InitLaws = record {
  init_new = λ w. (refl, refl);
  connect_same = λ db c w. refl;
  close_same = λ h w. refl;
}

run-exclusive_example :
    let s = run client (acquire ∷ acquire ∷ dispose 0 ∷ acquire ∷ []) (Db.get_instance pool, []) in
    uses 0 (stack_of s.0) + uses 0 s.1 ≤ 1
run-exclusive_example =
    run-exclusive client (λ w. w.0) client-InitLaws (acquire ∷ acquire ∷ dispose 0 ∷ acquire ∷ [])
      (Db.get_instance pool) 0 (unfold Db.get_instance Db.new_pool in refl)

abbrev defaults : Actions
defaults sig = record { handler = default; oneshot = false }

regist-wanted_example : regist (λ sig. not (sig == 9)) defaults sigterm ≡ wanted defaults sigterm
regist-wanted_example = regist-wanted (λ sig. not (sig == 9)) defaults sigterm refl

abbrev begun : TimePrint
begun = record { time = record { tv_sec = 5; tv_usec = 999999 }; sock = 7 }

-- an object that is there, with one thread at the test and one at the return
abbrev callers : Callers
callers = record {
  first = entering;
  second = returning;
  static_ = record { instance_ = some 4; next = 5 };
}

turns-Agree_example : Agree 4 (turns (true ∷ true ∷ false ∷ []) callers)
turns-Agree_example = turns-Agree 4 (true ∷ true ∷ false ∷ []) callers (tt, tt, refl)

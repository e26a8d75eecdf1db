-- ===== src/Tests/Handlers.antt =====
-- Handlers, events and the clock: the theorems of the threads on concrete packets.
use pserver.Prelude.{
  ℕ, ◌+◌, ◌*◌, ◌≤◌, ◌≡◌, refl, true, List, [], ◌∷◌, ◌++◌, some, arith, ◌==◌, if◌then◌else◌,
  count_if,
}
use pserver.Message.{Message, get_type}
use pserver.Message.Fields.{wire}
use pserver.PackageList
use pserver.Server
use pserver.Server.{Server, type_error}
use pserver.Despatch
use pserver.Despatch.{Command, add_command_deal, despatch}
use pserver.Despatch.Laws.{first_of, run_handler, despatch-add_command_deal}
use pserver.Bytes.{peek, peek_u16}
use pserver.PackDeal.{ptl_test, ptl_test_fun, register}
use pserver.Threads.{PServer, reply_by, log_received, is_running, pack_deal_round}
use pserver.Threads.Timer.{is_timer, timer_run, timer_run_spacing}
use pserver.Threads.Handling.{handled, popped, pack_deal_round_lem}
use pserver.Events.{
  EventType, eve_test, eve_test1, with_data, Handler, push, launch, call_all, order,
}
use pserver.Events.Laws.{registered, registered-push, push_all, of_type, launch-push_all}
use pserver.Tests.{World, pipe}

-- a packet of type 1, and one of type 9
abbrev asked : Message
asked = record { read_pos = 4; buffer = wire 1 0 []; recv_len = 4; send_begin = 0 }

abbrev unknown : Message
unknown = record { read_pos = 4; buffer = wire 9 0 []; recv_len = 4; send_begin = 0 }

get_type-unknown : get_type unknown ≡ some 9
unfolding get_type peek_u16 peek
get_type-unknown = refl

abbrev queued : PackageList.PackageList Message
queued = record { messages = (5, unknown) ∷ (5, asked) ∷ []; permits = 2 }

abbrev pserver_ : PServer World
pserver_ = record {
  running = true;
  sockets = record (Server.new (record { input = []; output = []; error = 0 })) {
    packages = queued;
  };
  functions = register log_received (reply_by pipe) Despatch.new;
  last_check = 0;
}

pserver-is_running : is_running pserver_ ≡ true
unfolding is_running
pserver-is_running = refl

pack_deal_round_lem_example : pack_deal_round pipe pserver_ ≡ (
    if 9 == ptl_test
    then handled pipe pserver_ (
        ptl_test_fun log_received
          (reply_by pipe)
          5
          unknown
          (popped pipe ((5, asked) ∷ []) pserver_))
    else some (record pserver_ {
      sockets = record (popped pipe ((5, asked) ∷ []) pserver_) {
        entries = pserver_.sockets.entries ++ type_error 5 9 ∷ [];
      };
    }))
pack_deal_round_lem_example =
    pack_deal_round_lem pipe pserver_ 5 9 unknown ((5, asked) ∷ []) refl pserver-is_running refl
      (omega arith) get_type-unknown

-- two handlers of one type, over a world that is a number
abbrev commands : List (Command ℕ)
commands =
    record { com_type = 9; com_fun = λ sock msg w. some (w + sock) }
    ∷ record { com_type = 9; com_fun = λ sock msg w. some 0 }
    ∷ []

despatch-add_command_deal_example :
    despatch 5 (some unknown) (add_command_deal commands Despatch.new) 100
    ≡ run_handler 5 unknown 100 (first_of 9 commands)
despatch-add_command_deal_example =
    despatch-add_command_deal commands 5 9 unknown 100 get_type-unknown

-- the clock of eleven seconds, and then one that is set back
timer_run_spacing_example :
    0 + 11 * count_if is_timer (timer_run (11 ∷ 3 ∷ 22 ∷ []) pserver_).sockets.entries
    ≤ (timer_run (11 ∷ 3 ∷ 22 ∷ []) pserver_).last_check + 11 * 0
unfolding Server.new
timer_run_spacing_example = timer_run_spacing (11 ∷ 3 ∷ 22 ∷ []) pserver_

-- handlers that count, of the objects 1, 2 and 1
abbrev counter : ℕ → Handler ℕ
counter ptr = record { obj_ptr = ptr; call = λ e w. w + ptr }

abbrev pushes : List (EventType × Handler ℕ)
pushes = (eve_test, counter 1) ∷ (eve_test1, counter 2) ∷ (eve_test, counter 2) ∷ []

launch-push_all_example :
    launch (with_data eve_test 7) (push_all pushes []) 40
    ≡ call_all (with_data eve_test 7) (of_type eve_test pushes) 40
launch-push_all_example = launch-push_all (with_data eve_test 7) pushes 40

registered-push_example : registered eve_test1 (push eve_test (counter 1) []) ≡ (
    if order eve_test == order eve_test1
    then registered eve_test [] ++ counter 1 ∷ []
    else registered eve_test1 [])
registered-push_example = registered-push eve_test eve_test1 (counter 1) []

-- ===== src/Threads/Isolation.antt =====
-- net_server.cpp and server.cpp: the connections do not disturb each other.
pub mod Packets
use pserver.Prelude.{
  ℕ, ◌≤◌, ◌<◌, ◌≡◌, refl, sym, ap, subst, ◌∙◌, ◌≢◌, inl, inr, false, ◌&&◌, ◌-◌, List, [], ◌∷◌, ◌++◌,
  Option, some, arith, ltb, ◌==◌, Bool-cases, Option-cases, length, All,
}
use pserver.Despatch.Laws.{run_handler}
use pserver.Kernel.{Kernel, Events, TakesAtMost}
use pserver.Message.{Message}
use pserver.PackDeal.{ptl_test, ptl_test_fun}
use pserver.PackDeal.Laws.{answer_packet, ptl_test_reply_bytes, typed}
use pserver.PackageList.Laws.{of_sock, of_sock-other}
use pserver.Server.{get_package, type_error, Server, send_msg}
use pserver.Server.Parts.{Part, socket_of, Part-IsSound}
use pserver.Server.Isolation.Pieces.{Part-Same}
use pserver.Server.Isolation.{Same, Same-trans}
use pserver.Server.Isolation.Answers.{send_msg-Same}
use pserver.Server.Isolation.Polling.{Apart, on_event-Apart}
use pserver.Server.Poll.{on_event}
use pserver.Server.Sound.{IsSound, HasHeader}
use pserver.Server.Sound.Closing.{log-IsSound, world-IsSound, time-IsSound, get_package-IsSound}
use pserver.Threads.{
  PServer, is_running, signal_round, timer_round, deal, pack_deal_round, reply_by, log_received,
}
use pserver.Threads.Isolation.Packets.{deal-Same, taken-Same}
use pserver.Threads.Handling.{Registered, get_package_lem, popped, despatched}
use pserver.Threads.Safety.{Reach-IsSafe, get_type-Returns, deal-Returns}
use pserver.Threads.System.{start, Reach}

module _ {S : Type 0} (k : Kernel S) (j : ℕ) where
  -- What the threads do while nothing happens on the socket `j`: events of other sockets and their
  -- parts, rounds of the handler thread on packets of other sockets and the two halves of one, rounds
  -- of the clock and of the timer, and changes outside the program.
  pub data OtherSteps (a : PServer S) : PServer S → Type 0 where
    no_steps : OtherSteps a a
    event :
        (p : PServer S) (sock fuel : ℕ) (events : Events) (s : Server S)
        → OtherSteps a p
        → j ≢ sock
        → on_event k fuel (sock, events) p.sockets ≡ some (some s)
        → OtherSteps a (record p { sockets = s })
    packet :
        (p p' : PServer S) (sock : ℕ) (msg : Message) (rest : List (ℕ × Message))
        → OtherSteps a p
        → j ≢ sock
        → p.sockets.packages.messages ≡ (sock, msg) ∷ rest
        → pack_deal_round k p ≡ some p'
        → OtherSteps a p'
    part :
        (p : PServer S) (s : Server S) (change : Part k p.sockets s)
        → OtherSteps a p
        → j ≢ socket_of k p.sockets change
        → OtherSteps a (record p { sockets = s })
    taken :
        (p : PServer S) (sock : ℕ) (msg : Message) (rest : List (ℕ × Message))
        → OtherSteps a p
        → j ≢ sock
        → p.sockets.packages.messages ≡ (sock, msg) ∷ rest
        → OtherSteps a (record p { sockets = (get_package p.sockets).0 })
    dealt :
        (p p' : PServer S) (sock : ℕ) (msg : Message)
        → OtherSteps a p
        → j ≢ sock
        → 4 ≤ length msg.buffer
        → deal k sock msg p ≡ some p'
        → OtherSteps a p'
    clock : (p : PServer S) → OtherSteps a p → OtherSteps a (signal_round k p)
    timer : (p : PServer S) → OtherSteps a p → OtherSteps a (timer_round p)
    outside :
        (p : PServer S) (world : S)
        → OtherSteps a p
        → OtherSteps a (record p { sockets = record p.sockets { world = world } })

  module _ (takes : TakesAtMost k) where
    -- The server is sound, and what it keeps for `j` is as it was.
    record Kept (a p : PServer S) : Type 0 where
      sound : IsSound p.sockets
      registered : Registered k p
      same : Same j a.sockets p.sockets

    joined :
        (a p : PServer S) (s : Server S)
        → Same j a.sockets p.sockets
        → Same j p.sockets s
        → Same j a.sockets s
    joined a p s (x, y, z) (x', y', z') = (x' ∙ x, y' ∙ y, z' ∙ z)

    packet-Kept :
        (a p p' : PServer S) (sock : ℕ) (msg : Message) (rest : List (ℕ × Message))
        → j ≢ sock
        → p.sockets.packages.messages ≡ (sock, msg) ∷ rest
        → pack_deal_round k p ≡ some p'
        → Kept a p
        → Kept a p'
    unfolding pack_deal_round
    packet-Kept a p p' sock msg rest ne e f v = elim (Bool-cases (is_running p)) [
      | inr off ↦ subst (Kept a) {x = p} {y = p'} (ground (arith, f, off)) v
      | inl on ↦
          let permit : 0 < p.sockets.packages.permits =
            omega (arith, v.sound.queue.covered, ap length e) in
          let got = get_package_lem k p sock msg rest e permit in
          let p1 : PServer S = record p { sockets = popped k rest p } in
          let sound : IsSound p1.sockets =
            subst IsSound (ap (λ g. g.0) got) (get_package-IsSound p.sockets v.sound) in
          let whole = subst (All HasHeader) e v.sound.whole in
          let dealt : deal k sock msg p1 ≡ some p' = ground (arith, f, on, got) in
          let (p2, ends, (sound2, registered2, _, _)) =
            deal-Returns k takes p1 sock msg sound v.registered whole.0 in
          let same : p2 ≡ p' = ground (arith, ends, dealt) in
          let taken : Same j p.sockets p1.sockets =
            (refl, refl, sym (ap (of_sock j) e ∙ of_sock-other sock j msg rest ne)) in
          let left = deal-Same k takes j sock ne msg p1 p' sound v.registered whole.0 dealt in
          record {
            sound = subst (λ (q : PServer S). IsSound q.sockets) same sound2;
            registered = subst (Registered k) same registered2;
            same =
                Same-trans j sock ne a.sockets p.sockets p'.sockets v.same
                  (Same-trans j sock ne p.sockets p1.sockets p'.sockets taken left);
          }
    ]

    event-Kept :
        (a p : PServer S) (sock fuel : ℕ) (events : Events) (s : Server S)
        → j ≢ sock
        → on_event k fuel (sock, events) p.sockets ≡ some (some s)
        → Kept a p
        → Kept a (record p { sockets = s })
    event-Kept a p sock fuel events s ne e v =
        let (sound, same) =
          subst (Apart k j sock ne p.sockets) e
            (on_event-Apart k j sock ne takes fuel events p.sockets v.sound) in
        record {
          sound = sound;
          registered = v.registered;
          same = Same-trans j sock ne a.sockets p.sockets s v.same same;
        }

    clock-Kept : (a p : PServer S) → Kept a p → Kept a (signal_round k p)
    unfolding signal_round
    clock-Kept a p v = elim (Bool-cases (is_running p)) [
      | inl on ↦ rw on (record {
        sound = time-IsSound p.sockets v.sound (k.time p.sockets.world);
        registered = v.registered;
        same = v.same;
      })
      | inr off ↦ rw off v
    ]

    timer-Kept : (a p : PServer S) → Kept a p → Kept a (timer_round p)
    unfolding timer_round
    timer-Kept a p v =
        elim (Bool-cases (is_running p && ltb 10 (p.sockets.cur_time - p.last_check))) [
          | inl due ↦ rw due (record {
            sound = log-IsSound p.sockets v.sound _;
            registered = v.registered;
            same = v.same;
          })
          | inr early ↦ rw early v
        ]

    steps-Kept : (a p : PServer S) → Kept a a → OtherSteps a p → Kept a p
    steps-Kept a _ v no_steps = v
    steps-Kept a _ v (event p sock fuel events s run ne e) =
        event-Kept a p sock fuel events s ne e (steps-Kept a p v run)
    steps-Kept a _ v (packet p p' sock msg rest run ne e f) =
        packet-Kept a p p' sock msg rest ne e f (steps-Kept a p v run)
    steps-Kept a _ v (part p s change run ne) =
        let w = steps-Kept a p v run in
        record {
          sound = Part-IsSound k takes p.sockets s change w.sound;
          registered = w.registered;
          same = joined a p s w.same (Part-Same k j p.sockets s change ne w.sound);
        }
    steps-Kept a _ v (taken p sock msg rest run ne e) =
        let w = steps-Kept a p v run in
        record {
          sound = get_package-IsSound p.sockets w.sound;
          registered = w.registered;
          same =
              joined a p (get_package p.sockets).0 w.same
                (taken-Same k takes j sock ne msg rest p w.sound e);
        }
    steps-Kept a _ v (dealt p p' sock msg run ne long e) =
        let w = steps-Kept a p v run in
        let (q, ends, (sound, registered, _, _)) =
          deal-Returns k takes p sock msg w.sound w.registered long in
        let same : q ≡ p' = ground (arith, ends, e) in
        record {
          sound = subst (λ (x : PServer S). IsSound x.sockets) same sound;
          registered = subst (Registered k) same registered;
          same =
              joined a p p'.sockets w.same
                (deal-Same k takes j sock ne msg p p' w.sound w.registered long e);
        }
    steps-Kept a _ v (clock p run) = clock-Kept a p (steps-Kept a p v run)
    steps-Kept a _ v (timer p run) = timer-Kept a p (steps-Kept a p v run)
    steps-Kept a _ v (outside p world run) =
        let w = steps-Kept a p v run in
        record {
          sound = world-IsSound p.sockets w.sound world;
          registered = w.registered;
          same = w.same;
        }

    -- Where `send` takes no more than it is given, from every state that the server comes to: however
    -- many events of other sockets and their parts, new connections, errors and the pieces of
    -- `CloseConnect` among them, packets of other sockets with a whole header, taken and dealt with at
    -- once or with other steps in between, and rounds of the clock and the timer come, in any order and
    -- with any bytes, the packet
    -- that comes in on `j`, the one that waits to be sent on `j`, and the packets of `j` in the queue,
    -- in their order, stay as they were.
    pub others-Same :
        (world : S) (now : ℕ) (a b : PServer S) (held : Option (ℕ × Message))
        → Reach k (start k world now) (record { server = a; held = held })
        → OtherSteps a b
        → Same j a.sockets b.sockets
    others-Same world now a b held r run =
        let v = Reach-IsSafe k takes world now (record { server = a; held = held }) r in
        (steps-Kept a b
          (record { sound = v.sound; registered = v.registered; same = (refl, refl, refl) })
          run).same

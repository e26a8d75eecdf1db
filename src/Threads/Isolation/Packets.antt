-- ===== src/Threads/Isolation/Packets.antt =====
-- server.cpp, `PackDeal`: a packet of another socket leaves what the server keeps for a socket alone.
use pserver.Prelude.{
  ℕ, ◌≤◌, ◌<◌, ◌≡◌, refl, sym, ap, subst, ◌∙◌, ◌≢◌, inl, inr, false, List, [], ◌∷◌, ◌++◌, some,
  arith, ◌==◌, Bool-cases, Option-cases, length,
}
use pserver.Despatch.Laws.{run_handler}
use pserver.Kernel.{Kernel, TakesAtMost}
use pserver.Message.{Message}
use pserver.PackDeal.{ptl_test, ptl_test_fun}
use pserver.PackDeal.Laws.{answer_packet, ptl_test_reply_bytes, typed}
use pserver.PackageList.Laws.{of_sock, of_sock-other}
use pserver.Server.{get_package, type_error, Server, send_msg}
use pserver.Server.Isolation.{Same}
use pserver.Server.Isolation.Answers.{send_msg-Same}
use pserver.Server.Sound.{IsSound}
use pserver.Server.Sound.Closing.{log-IsSound}
use pserver.Threads.{PServer, deal, reply_by, log_received}
use pserver.Threads.Handling.{Registered, get_package_lem, despatched}
use pserver.Threads.Safety.{get_type-Returns}

module _ {S : Type 0} (k : Kernel S) (takes : TakesAtMost k) (j : ℕ) where
  tested :
      (sock : ℕ) (ne : j ≢ sock) (msg : Message) (s s' : Server S)
      → IsSound s
      → ptl_test_fun log_received (reply_by k) sock msg s ≡ some s'
      → Same j s s'
  unfolding ptl_test_fun
  tested sock ne msg s s' v e =
      let made = ptl_test_reply_bytes msg in
      let reply : Message = record typed { buffer = answer_packet } in
      elim (Option-cases (send_msg k sock reply false (log_received sock s))) [
        | inl f ↦ absurd (ground (arith, e, f, made))
        | inr ((s1, m), f) ↦
            send_msg-Same k j sock ne (log_received sock s) (log-IsSound s v _) reply m s'
              (ground (arith, e, f, made))
      ]

  pub deal-Same :
      (sock : ℕ) (ne : j ≢ sock) (msg : Message) (p p' : PServer S)
      → IsSound p.sockets
      → Registered k p
      → 4 ≤ length msg.buffer
      → deal k sock msg p ≡ some p'
      → Same j p.sockets p'.sockets
  unfolding deal run_handler
  deal-Same sock ne msg p p' v r long e =
      let (type, t, _) = get_type-Returns msg long in
      let d = despatched k p sock type msg p.sockets r t in
      elim (Bool-cases (ptl_test == type)) [
        | inr other ↦
            subst (λ (q : PServer S). Same j p.sockets q.sockets)
              {x = record p {
                sockets = record p.sockets {
                  entries = p.sockets.entries ++ type_error sock type ∷ [];
                };
              }}
              {y = p'} (ground (arith, d, e)) (refl, refl, refl)
        | inl test ↦
            elim (Option-cases (ptl_test_fun log_received (reply_by k) sock msg p.sockets)) [
              | inl f ↦ absurd (ground (arith, d, e, f))
              | inr (s', f) ↦
                  subst (λ (q : PServer S). Same j p.sockets q.sockets)
                    {x = record p { sockets = s' }} {y = p'} (ground (arith, d, e, f))
                    (tested sock ne msg p.sockets s' v f)
            ]
      ]

  pub taken-Same :
      (sock : ℕ) (ne : j ≢ sock) (msg : Message) (rest : List (ℕ × Message)) (p : PServer S)
      → IsSound p.sockets
      → p.sockets.packages.messages ≡ (sock, msg) ∷ rest
      → Same j p.sockets (get_package p.sockets).0
  taken-Same sock ne msg rest p v e =
      let permit : 0 < p.sockets.packages.permits = omega (arith, v.queue.covered, ap length e) in
      subst (Same j p.sockets) (sym (ap (λ g. g.0) (get_package_lem k p sock msg rest e permit)))
        (refl, refl, sym (ap (of_sock j) e ∙ of_sock-other sock j msg rest ne))

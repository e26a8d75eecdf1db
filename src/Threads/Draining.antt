-- ===== src/Threads/Draining.antt =====
-- server.cpp, `PackDeal`: the handler thread comes to the end of the queue.
use pserver.Prelude.{
  ℕ, zero, suc, ◌≤◌, ◌≡◌, refl, ap, ◌∙◌, inl, inr, true, List, [], ◌∷◌, Option, none, some, arith,
  ltb, Bool-cases, length, drop, ◌>>=◌, Returns,
}
use pserver.Kernel.{Kernel, TakesAtMost}
use pserver.Message.{Message}
use pserver.PackageList
use pserver.Server.{Server, get_package}
use pserver.Server.Sound.{IsSound}
use pserver.Server.Sound.Closing.{get_package-IsSound}
use pserver.Threads.{PServer, is_running, deal, pack_deal_round}
use pserver.Threads.Handling.{Registered}
use pserver.Threads.Safety.{HeldHeader, get_package-header, deal-Returns}

module _ {S : Type 0} (k : Kernel S) where
  -- `n` rounds of the handler thread, with no other thread between them
  unfoldable pub rounds : ℕ → PServer S → Option (PServer S)
  rounds zero p = some p
  rounds (suc n) p = pack_deal_round k p >>= rounds n

  module _ (takes : TakesAtMost k) where
    -- What a round of the handler thread leaves.
    abbrev pub Rounds : ℕ → PServer S → PServer S → Type 0
    Rounds n p p' =
        IsSound p'.sockets
        × Registered k p'
        × (p'.running ≡ p.running)
        × (p'.sockets.packages.messages ≡ drop n p.sockets.packages.messages)

    pop_front-drop : (ms : List (ℕ × Message)) → (PackageList.pop_front ms).0 ≡ drop 1 ms
    unfolding PackageList.pop_front
    pop_front-drop [] = refl
    pop_front-drop (node ∷ ms) = refl

    drop-none : (ms : List (ℕ × Message)) → length ms ≤ 0 → ms ≡ drop 1 ms
    drop-none [] h = refl
    drop-none (node ∷ ms) h = absurd (omega arith)

    taken_lem :
        (s : Server S)
        → IsSound s
        → (get_package s).0.packages.messages ≡ drop 1 s.packages.messages
    unfolding get_package PackageList.get_msg
    taken_lem s v = elim (Bool-cases (ltb 0 s.packages.permits)) [
      | inl open_ ↦ rw open_ (pop_front-drop s.packages.messages)
      | inr closed ↦ rw closed (drop-none s.packages.messages (ground (arith, v.queue.covered)))
    ]

    taken_cases :
        (p : PServer S) (s : Server S) (node : Option (ℕ × Message))
        → IsSound s
        → HeldHeader node
        → Registered k p
        → s.packages.messages ≡ drop 1 p.sockets.packages.messages
        → Returns
            (elim node [
              | none ↦ some (record p { sockets = s })
              | some (sock, msg) ↦ deal k sock msg (record p { sockets = s })
            ])
            (Rounds 1 p)
    taken_cases p s none v header r same = (record p { sockets = s }, refl, (v, r, refl, same))
    taken_cases p s (some (sock, msg)) v header r same =
        let (p', e, (v', r', kept, on)) =
          deal-Returns k takes (record p { sockets = s }) sock msg v r header in
        (p', e, (v', r', on, ap (λ l. l.messages) kept ∙ same))

    pub round_lem :
        (p : PServer S)
        → IsSound p.sockets
        → Registered k p
        → is_running p ≡ true
        → Returns (pack_deal_round k p) (Rounds 1 p)
    unfolding pack_deal_round
    round_lem p v r on = rw on (
        taken_cases p (get_package p.sockets).0 (get_package p.sockets).1
          (get_package-IsSound p.sockets v) (get_package-header p.sockets v) r
          (taken_lem p.sockets v))

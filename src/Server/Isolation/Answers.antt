-- ===== src/Server/Isolation/Answers.antt =====
-- net_server.cpp, `SendMsg`: an answer on one socket and the packets of the others.
use pserver.Prelude.{
  ℕ, ◌≡◌, refl, subst, ◌∙◌, ◌≢◌, inl, inr, false, some, arith, ◌==◌, Bool-cases, ==_ne,
  Option-cases,
}
use pserver.HashTable
use pserver.HashTable.{Table}
use pserver.HashTable.Laws.{find-insert, find-update_value}
use pserver.Kernel.{Kernel, eagain, ctl_mod}
use pserver.Message
use pserver.Message.{Message}
use pserver.Message.Transfer
use pserver.Server.{Server, is_negative, epoll_in_out, send_now, send_msg}
use pserver.Server.Isolation.{Same}
use pserver.Server.Sound.{IsSound}

module _ {S : Type 0} (k : Kernel S) (j sock : ℕ) (ne : j ≢ sock) (s : Server S)
    (v : IsSound s) where
  -- Another table of packets that wait, with the same for `j`, in another world.
  replaced :
      (s' : Server S) (t : Table Message) (w : S)
      → HashTable.find j t ≡ HashTable.find j s.send_list
      → record s { send_list = t; world = w } ≡ s'
      → Same j s s'
  replaced s' t w same e = subst (Same j s) e (refl, same, refl)

  insert_same :
      (m : Message)
      → HashTable.find j (HashTable.insert sock m s.send_list) ≡ HashTable.find j s.send_list
  insert_same m = find-insert sock s.send_list v.sends j m ∙ rw (==_ne sock j ne)

  send_now-Same :
      (msg m' : Message) (s' : Server S) → send_now k sock msg s ≡ some (s', m') → Same j s s'
  unfolding send_now
  send_now-Same msg m' s' e = elim (Option-cases (Transfer.send (k.send sock) msg s.world)) [
    | inl g ↦ absurd (ground (arith, e, g))
    | inr ((m, ret, w), g) ↦ elim (Bool-cases (Transfer.send_done m).1) [
      | inl done ↦ replaced s' s.send_list w refl (ground (arith, e, g, done))
      | inr more ↦ elim (Bool-cases (k.errno w == eagain)) [
        | inr other ↦ replaced s' s.send_list w refl (ground (arith, e, g, more, other))
        | inl again ↦ elim (Option-cases Message.new) [
          | inl f ↦ absurd (ground (arith, e, g, more, again, f))
          | inr (fresh, f) ↦ elim (Option-cases (Message.copy fresh (Transfer.send_done m).0)) [
            | inl h ↦ absurd (ground (arith, e, g, more, again, f, h))
            | inr (queued, h) ↦
                replaced s' (HashTable.insert sock queued s.send_list)
                  (k.epoll_ctl ctl_mod sock epoll_in_out w).1 (insert_same queued)
                  (ground (arith, e, g, more, again, f, h))
          ]
        ]
      ]
    ]
  ]

  pub send_msg-Same :
      (msg m' : Message) (s' : Server S) → send_msg k sock msg false s ≡ some (s', m') → Same j s s'
  unfolding send_msg
  send_msg-Same msg m' s' e = elim (Bool-cases (is_negative sock)) [
    | inl gone ↦ replaced s' s.send_list s.world refl (ground (arith, e, gone))
    | inr fine ↦ elim (Option-cases (HashTable.find sock s.send_list)) [
      | inl f ↦ send_now-Same (Message.re_send msg) m' s' (ground (arith, e, f, fine))
      | inr (old, f) ↦ elim (Option-cases (Message.append old (Message.re_send msg))) [
        | inl g ↦ absurd (ground (arith, e, f, g, fine))
        | inr (m, g) ↦
            replaced s' (HashTable.update_value sock m s.send_list) s.world
              (find-update_value sock s.send_list v.sends j m old f ∙ rw (==_ne sock j ne))
              (ground (arith, e, f, g, fine))
      ]
    ]
  ]

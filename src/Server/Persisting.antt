-- ===== src/Server/Persisting.antt =====
-- net_server.cpp, `OnRecv`: what no `recv` on the socket changes.
use pserver.Prelude.{
  ℕ, zero, suc, ◌≡◌, subst, sym, inl, inr, some, arith, true, refl, ◌-◌, ◌==◌, ltb, Bool-cases,
  Option-cases, List,
}
use pserver.Kernel.{Kernel}
use pserver.Message.{Message, get_length}
use pserver.Message.Transfer
use pserver.Message.Transfer.{Ret, store, recv_head, recv_body}
use pserver.Server.{Entry, Server, close_connect}
use pserver.Server.Loop.{Loop, ended, recv_loop, close_and_return}
use pserver.Server.Turns.{Turn, ends, closes, queues, goes_on, recv_loop-Turn, finish-outside, held}

module _ {S : Type 0} (k : Kernel S) (sock : ℕ) (P : ℕ × List Entry → S → Type 0)
    (quiet : (kept : ℕ × List Entry) (n : ℕ) (w : S) → P kept w → P kept (k.recv sock n w).1) where
  head_kept :
      (kept : ℕ × List Entry) (m m' : Message) (ret : Ret) (w w' : S)
      → recv_head (k.recv sock) m w ≡ some (m', ret, w')
      → P kept w
      → P kept w'
  unfolding recv_head
  head_kept kept m m' ret w w' e p =
      let asked = quiet kept (4 - m.recv_len) w p in
      let answer = k.recv sock (4 - m.recv_len) w in
      elim (Option-cases (store answer.0 m)) [
        | inl none' ↦ absurd (ground (arith, e))
        | inr ((m1, ret1), f) ↦ elim (Bool-cases (m1.recv_len == 4)) [
          | inr short ↦ subst (P kept) {x = answer.1} (ground (arith, e, f)) asked
          | inl full ↦ elim (Option-cases (get_length m1)) [
            | inl none' ↦ absurd (ground (arith, e, f))
            | inr (len, g) ↦ elim (Bool-cases (ltb 0xffff len)) [
              | inl long ↦ subst (P kept) {x = answer.1} (ground (arith, e, f)) asked
              | inr fits ↦ subst (P kept) {x = answer.1} (ground (arith, e, f)) asked
            ]
          ]
        ]
      ]

  body_kept :
      (kept : ℕ × List Entry) (m m' : Message) (ret : Ret) (w w' : S)
      → recv_body (k.recv sock) m w ≡ some (m', ret, w')
      → P kept w
      → P kept w'
  unfolding recv_body
  body_kept kept m m' ret w w' e p = elim (Option-cases (get_length m)) [
    | inl none' ↦ absurd (ground (arith, e))
    | inr (len, g) ↦ elim (Bool-cases (ltb len m.recv_len)) [
      | inl wrong ↦ subst (P kept) (ground (arith, e)) p
      | inr right ↦
          let answer = k.recv sock (len - m.recv_len) w in
          elim (Option-cases (store answer.0 m)) [
            | inl none' ↦ absurd (ground (arith, e))
            | inr ((m1, ret1), f) ↦
                subst (P kept) {x = answer.1} (ground (arith, e, f))
                  (quiet kept (len - m.recv_len) w p)
          ]
    ]
  ]

  recv_kept :
      (kept : ℕ × List Entry) (m m' : Message) (ret : Ret) (w w' : S)
      → Transfer.recv (k.recv sock) m w ≡ some (m', ret, w')
      → P kept w
      → P kept w'
  unfolding Transfer.recv
  recv_kept kept m m' ret w w' e p = elim (Bool-cases (ltb m.recv_len 4)) [
    | inl head ↦ head_kept kept m m' ret w w' (ground (arith, e)) p
    | inr body ↦ body_kept kept m m' ret w w' (ground (arith, e)) p
  ]

  not_closed :
      (s after : Server S) (l : Loop S) (ret : Ret)
      → close_and_return k sock s ≡ some l
      → l ≡ ended ret after
      → ⊥
  not_closed s after l ret e f = elim (Option-cases (close_connect k sock s)) [
    | inl none' ↦ absurd (ground (arith, e))
    | inr (s', g) ↦ absurd (ground (arith, e))
  ]

  turn_kept :
      (fuel : ℕ) (m : Message) (s after : Server S) (l : Loop S) (ret : Ret)
      → Turn k sock fuel m s l
      → l ≡ ended ret after
      → P (s.listen_sock, s.entries) s.world
      → ((m' : Message) (s' : Server S)
          → recv_loop k fuel sock m' s' ≡ some l
          → P (s'.listen_sock, s'.entries) s'.world
          → P (after.listen_sock, after.entries) after.world)
      → P (after.listen_sock, after.entries) after.world
  turn_kept fuel m s after l ret (ends m' ret' w r same) e p next =
      subst (λ x. P (x.listen_sock, x.entries) x.world) {x = held k sock m' w s} {y = after}
        (ground (arith, same, e)) (recv_kept (s.listen_sock, s.entries) m m' ret' s.world w r p)
  turn_kept fuel m s after l ret (closes m' n w r shut) e p next =
      absurd (not_closed _ after l ret shut e)
  turn_kept fuel m s after l ret (queues m' fresh n w s' r whole f again) e p next =
      let (same, _, listen, said) = finish-outside k sock m' fresh (held k sock m' w s) s' true f in
      next fresh s' again (
        subst (λ l. P (l, s'.entries) s'.world) (sym listen)
          (subst (λ es. P (s.listen_sock, es) s'.world) (sym said)
            (subst (P (s.listen_sock, s.entries)) (sym same)
              (recv_kept (s.listen_sock, s.entries) m m' _ s.world w r p))))
  turn_kept fuel m s after l ret (goes_on m' n w r again) e p next =
      next m' (held k sock m' w s) again (recv_kept (s.listen_sock, s.entries) m m' _ s.world w r p)

  -- Where the loop comes to its end, what every `recv` on the socket keeps still holds.
  pub recv_loop-kept :
      (fuel : ℕ) (m : Message) (s after : Server S) (ret : Ret)
      → recv_loop k fuel sock m s ≡ some (ended ret after)
      → P (s.listen_sock, s.entries) s.world
      → P (after.listen_sock, after.entries) after.world
  unfolding recv_loop
  recv_loop-kept zero m s after ret e p = absurd (ground (arith, e))
  recv_loop-kept (suc fuel) m s after ret e p =
      turn_kept fuel m s after (ended ret after) ret
        (recv_loop-Turn k sock fuel m s (ended ret after) e) refl p
        (λ m' s' again p'. recv_loop-kept fuel m' s' after ret again p')

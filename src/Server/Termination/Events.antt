-- ===== src/Server/Termination/Events.antt =====
-- net_server.cpp, `DespatchEvent`: its loops end. `waiting` counts what is there to be read, the bytes of
-- all sockets and the connections that wait to be accepted.
use pserver.Prelude.{
  ℕ, zero, suc, ◌+◌, ◌-◌, ◌≤◌, ◌<◌, ◌≡◌, refl, sym, ap, subst, ◌∙◌, inl, inr, true, List, Option,
  none, some, arith, ltb, ◌==◌, Bool-cases, Option-cases, length,
}
use pserver.Kernel.{Kernel, Received, got, recv_failed, Events, EpollOp, ctl_del, no_events}
use pserver.Bytes.{poke}
use pserver.Message.{Message, get_length}
use pserver.Message.Transfer
use pserver.Message.Transfer.{Ret, count, failed, store}
use pserver.Server.{Entry, Server, close_connect}
use pserver.Server.Loop.{Loop, ended, returned, out_of_fuel, forget, recv_loop, close_and_return}
use pserver.Server.Turns.{
  held, bytes_of, ends, closes, queues, goes_on, recv_loop-Turn, finish-outside,
}

-- While one call of `DespatchEvent` runs nothing new comes in: `recv` takes away what it brings, `accept`
-- a connection, and no other call adds anything.
pub record WaitingLaws {S : Type 0} (k : Kernel S) (waiting : S → ℕ) : Type 0 where
  pub recv_got :
      (sock n : ℕ) (w w' : S) (bytes : List ℕ)
      → k.recv sock n w ≡ (got bytes, w')
      → waiting w' + length bytes ≤ waiting w
  pub recv_none :
      (sock n : ℕ) (w w' : S) → k.recv sock n w ≡ (recv_failed, w') → waiting w' ≤ waiting w
  pub send_keeps : (sock : ℕ) (bytes : List ℕ) (w : S) → waiting (k.send sock bytes w).1 ≤ waiting w
  pub ctl_keeps :
      (op : EpollOp) (sock : ℕ) (e : Events) (w : S)
      → waiting (k.epoll_ctl op sock e w).1 ≤ waiting w
  pub close_keeps : (sock : ℕ) (w : S) → waiting (k.close sock w) ≤ waiting w
  pub set_sock_keeps : (sock : ℕ) (w : S) → waiting (k.set_sock sock w) ≤ waiting w
  pub accept_some :
      (listener : ℕ) (w : S)
      → 0 < (k.accept listener w).0
      → waiting (k.accept listener w).1 < waiting w
  pub accept_none : (listener : ℕ) (w : S) → waiting (k.accept listener w).1 ≤ waiting w

module _ {S : Type 0} (k : Kernel S) (on_close : ℕ → List Entry → List Entry) (waiting : S → ℕ)
    (laws : WaitingLaws k waiting) where
  -- one answer of `recv`, stored
  stored :
      (sock wanted : ℕ) (m m1 : Message) (ret : Ret) (w : S) (answer : Received) (w' : S)
      → k.recv sock wanted w ≡ (answer, w')
      → store answer m ≡ some (m1, ret)
      → waiting w' + bytes_of ret ≤ waiting w
  unfolding store
  stored sock wanted m m1 ret w recv_failed w' r e =
      ground (arith, e, laws.recv_none sock wanted w w' r)
  stored sock wanted m m1 ret w (got bytes) w' r e =
      elim (Option-cases (poke m.buffer m.recv_len bytes)) [
        | inl f ↦ absurd (ground (arith, e, f))
        | inr (c, f) ↦ ground (arith, e, f, laws.recv_got sock wanted w w' bytes r)
      ]

  module _ (sock : ℕ) (m m' : Message) (ret : Ret) (w w' : S) where
    recv_head_lem :
        Transfer.recv_head (k.recv sock) m w ≡ some (m', ret, w')
        → waiting w' + bytes_of ret ≤ waiting w
    unfolding Transfer.recv_head
    recv_head_lem e =
        let (answer, w1) = k.recv sock (4 - m.recv_len) w in
        elim (Option-cases (store answer m)) [
          | inl f ↦ absurd (ground (arith, e, f))
          | inr ((m1, ret1), f) ↦
              let less = stored sock (4 - m.recv_len) m m1 ret1 w answer w1 refl f in
              elim (Bool-cases (m1.recv_len == 4)) [
                | inr short ↦ ground (arith, e, f, less)
                | inl full ↦ elim (Option-cases (get_length m1)) [
                  | inl g ↦ absurd (ground (arith, e, f, g))
                  | inr (len, g) ↦ elim (Bool-cases (ltb 0xffff len)) [
                    | inl long ↦ ground (arith, e, f, g, less)
                    | inr fits ↦ ground (arith, e, f, g, less)
                  ]
                ]
              ]
        ]

    recv_body_lem :
        Transfer.recv_body (k.recv sock) m w ≡ some (m', ret, w')
        → waiting w' + bytes_of ret ≤ waiting w
    unfolding Transfer.recv_body
    recv_body_lem e = elim (Option-cases (get_length m)) [
      | inl g ↦ absurd (ground (arith, e, g))
      | inr (len, g) ↦ elim (Bool-cases (ltb len m.recv_len)) [
        | inl wrong ↦ ground (arith, e, g)
        | inr right ↦
            let (answer, w1) = k.recv sock (len - m.recv_len) w in
            elim (Option-cases (store answer m)) [
              | inl f ↦ absurd (ground (arith, e, f, g))
              | inr ((m1, ret1), f) ↦
                  let less = stored sock (len - m.recv_len) m m1 ret1 w answer w1 refl f in
                  ground (arith, e, f, g, less)
            ]
      ]
    ]

    recv_lem :
        Transfer.recv (k.recv sock) m w ≡ some (m', ret, w') → waiting w' + bytes_of ret ≤ waiting w
    unfolding Transfer.recv
    recv_lem e = elim (Bool-cases (ltb m.recv_len 4)) [
      | inl head ↦ recv_head_lem (ground (arith, e))
      | inr body ↦ recv_body_lem (ground (arith, e))
    ]

  -- A server with nothing new to read and the callback that it had.
  abbrev pub Quiet : ℕ → Server S → Type 0
  Quiet b s = (waiting s.world ≤ b) × (s.on_close ≡ some on_close)

  abbrev pub QuietLoop : ℕ → Loop S → Type 0
  QuietLoop b (ended ret s) = Quiet b s
  QuietLoop b (returned s) = Quiet b s
  QuietLoop b out_of_fuel = ⊥

  -- A handler that comes back leaves it quiet, and no loop of it is out of fuel.
  abbrev pub QuietEnd : ℕ → Option (Option (Server S)) → Type 0
  QuietEnd b none = Unit {0}
  QuietEnd b (some none) = ⊥
  QuietEnd b (some (some s)) = Quiet b s

  pub close_connect-Quiet :
      (sock b : ℕ) (s s' : Server S) → Quiet b s → close_connect k sock s ≡ some s' → Quiet b s'
  unfolding close_connect
  close_connect-Quiet sock b s s' (few, on) e =
      let w1 = (k.epoll_ctl ctl_del sock no_events s.world).1 in
      ground (arith, e, laws.ctl_keeps ctl_del sock no_events s.world, laws.close_keeps sock w1)

  closing-Quiet :
      (sock b : ℕ) (s : Server S) (l : Loop S)
      → Quiet b s
      → close_and_return k sock s ≡ some l
      → QuietLoop b l
  closing-Quiet sock b s l q e = elim (Option-cases (close_connect k sock s)) [
    | inl none' ↦ absurd (ground (arith, e))
    | inr (s', f) ↦
        subst (QuietLoop b) {x = returned s'} (ground (arith, e))
          (close_connect-Quiet sock b s s' q f)
  ]

  pub recv_loop-Quiet :
      (sock b fuel : ℕ) (msg : Message) (s : Server S) (l : Loop S)
      → Quiet b s
      → waiting s.world < fuel
      → recv_loop k fuel sock msg s ≡ some l
      → QuietLoop b l
  recv_loop-Quiet sock b zero msg s l q lt e = absurd (omega arith)
  recv_loop-Quiet sock b (suc fuel) msg s l (few, on) lt e =
      elim (recv_loop-Turn k sock fuel msg s l e) [
        | ends m ret w r f ↦
            let less = recv_lem sock msg m ret s.world w r in
            subst (QuietLoop b) {x = ended ret (held k sock m w s)} (sym f)
              (omega (arith, less), on)
        | closes m n w r f ↦
            let less = recv_lem sock msg m (count (suc n)) s.world w r in
            closing-Quiet sock b (forget sock (held k sock m w s)) l (omega (arith, less), on) f
        | queues m fresh n w s' r whole f g ↦
            let less = recv_lem sock msg m (count (suc n)) s.world w r in
            let (same, kept, _, _) = finish-outside k sock m fresh (held k sock m w s) s' true f in
            recv_loop-Quiet sock b fuel fresh s' l (omega (arith, less, ap waiting same), kept ∙ on)
              (omega (arith, less, ap waiting same)) g
        | goes_on m n w r g ↦
            let less = recv_lem sock msg m (count (suc n)) s.world w r in
            recv_loop-Quiet sock b fuel m (held k sock m w s) l (omega (arith, less), on)
              (omega (arith, less)) g
      ]

-- ===== src/Server/Termination/Despatch.antt =====
-- net_server.cpp, `DespatchEvent`: it comes to an end, over all the events of one call.
use pserver.Prelude.{
  ℕ, zero, suc, ◌≤◌, ◌<◌, ◌≡◌, refl, ap, subst, ◌∙◌, ◌≢◌, inl, inr, Bool, true, false, ◌||◌, List,
  [], ◌∷◌, Option, none, some, arith, leb, ltb, ◌==◌, Bool-cases, ltb→lt, Option-cases, drop, ◌>>=◌,
}
use pserver.HashTable
use pserver.Kernel.{Kernel, Sent, sent, send_failed, Events, eagain, ctl_mod, ctl_add}
use pserver.Message
use pserver.Message.{Message}
use pserver.Message.Transfer
use pserver.Message.Transfer.{Ret, count, failed}
use pserver.Server.{
  Entry, Server, is_negative, epoll_in, update_connect_time, close_connect, on_send,
}
use pserver.Server.Loop.{Loop, ended, returned, out_of_fuel, forget, recv_loop, after_loop, on_recv}
use pserver.Server.Poll.{
  add_event, accept_one, accept_loop, when, done, ◌and_then◌, on_event, on_events, despatch_event,
}
use pserver.Server.Termination.Events.{
  WaitingLaws, Quiet, QuietLoop, QuietEnd, close_connect-Quiet, recv_loop-Quiet,
}

module _ {S : Type 0} (k : Kernel S) (on_close : ℕ → List Entry → List Entry) (waiting : S → ℕ)
    (laws : WaitingLaws k waiting) (b : ℕ) where
  abbrev Calm : Server S → Type 0
  Calm s = Quiet k on_close waiting laws b s

  abbrev CalmEnd : Option (Option (Server S)) → Type 0
  CalmEnd r = QuietEnd k on_close waiting laws b r

  close-Calm : (sock : ℕ) (s : Server S) → Calm s → CalmEnd (done k (close_connect k sock s))
  close-Calm sock s q = elim (Option-cases (close_connect k sock s)) [
    | inl e ↦ rw e tt
    | inr (s', e) ↦ rw e (close_connect-Quiet k on_close waiting laws sock b s s' q e)
  ]

  closing-Calm :
      (sock : ℕ) (s : Server S) → Calm s → CalmEnd (close_connect k sock s >>= λ s'. some (some s'))
  closing-Calm sock s q = elim (Option-cases (close_connect k sock s)) [
    | inl e ↦ rw e tt
    | inr (s', e) ↦ rw e (close_connect-Quiet k on_close waiting laws sock b s s' q e)
  ]

  after_loop-Calm :
      (sock : ℕ) (l : Loop S)
      → QuietLoop k on_close waiting laws b l
      → CalmEnd (after_loop k sock l)
  unfolding after_loop
  after_loop-Calm sock out_of_fuel q = absurd q
  after_loop-Calm sock (returned s) q = q
  after_loop-Calm sock (ended (count zero) s) q = closing-Calm sock (forget sock s) q
  after_loop-Calm sock (ended (count (suc n)) s) q = q
  after_loop-Calm sock (ended failed s) q = elim (Bool-cases (k.errno s.world == eagain)) [
    | inl again ↦ rw again q
    | inr broken ↦ rw broken (closing-Calm sock (forget sock s) q)
  ]

  send_world :
      (sock : ℕ) (m : Message) (w : S) (answer : Sent) (w' : S) (r : Message × Ret × S)
      → k.send sock (drop m.send_begin m.buffer) w ≡ (answer, w')
      → Transfer.send (k.send sock) m w ≡ some r
      → r.2 ≡ w'
  unfolding Transfer.send
  send_world sock m w send_failed w' r e f = ground (arith, e, f)
  send_world sock m w (sent n) w' r e f = ground (arith, e, f)

  send-Calm : (sock : ℕ) (s : Server S) → Calm s → CalmEnd (done k (on_send k sock s))
  unfolding on_send
  send-Calm sock s q = elim (Option-cases (HashTable.find sock s.send_list)) [
    | inl e ↦ rw (e, on_send) q
    | inr (msg, e) ↦ elim (Option-cases (Transfer.send (k.send sock) msg s.world)) [
      | inl f ↦ rw (e, on_send, f) tt
      | inr ((m, ret, w), f) ↦
          let bytes = drop msg.send_begin msg.buffer in
          let same =
            send_world sock msg s.world (k.send sock bytes s.world).0 (k.send sock bytes s.world).1
              (m, ret, w) refl f in
          let less = laws.send_keeps sock bytes s.world in
          let few : waiting w ≤ b = omega (arith, q.0, less, ap waiting same) in
          elim (Bool-cases (Transfer.send_done m).1) [
            | inl all_sent ↦
                rw (e, on_send, f, all_sent)
                  (omega (arith, few, laws.ctl_keeps ctl_mod sock epoll_in w), q.1)
            | inr more ↦ rw (e, on_send, f, more) (few, q.1)
          ]
    ]
  ]

  module _ (fuel : ℕ) (enough : b < fuel) where
    loop-Calm :
        (sock : ℕ) (msg : Message) (s : Server S)
        → Calm s
        → CalmEnd (recv_loop k fuel sock msg s >>= after_loop k sock)
    loop-Calm sock msg s q = elim (Option-cases (recv_loop k fuel sock msg s)) [
      | inl e ↦ rw e tt
      | inr (l, e) ↦ rw e (
          after_loop-Calm sock l
            (recv_loop-Quiet k on_close waiting laws sock b fuel msg s l q (omega (arith, q.0)) e))
    ]

    recv-Calm : (sock : ℕ) (s : Server S) → Calm s → CalmEnd (on_recv k fuel sock s)
    unfolding on_recv
    recv-Calm sock s q = elim (Bool-cases (is_negative sock || leb 4096 sock)) [
      | inl out ↦ rw out q
      | inr fine ↦ elim (Option-cases (HashTable.find sock s.recv_list)) [
        | inr (msg, e) ↦ rw (fine, e) (loop-Calm sock msg s q)
        | inl e ↦ elim (Option-cases Message.new) [
          | inl f ↦ rw (fine, e, f) tt
          | inr (fresh, f) ↦
              rw (fine, e, f)
                (loop-Calm sock fresh
                  (record s { recv_list = HashTable.insert sock fresh s.recv_list }) q)
        ]
      ]
    ]

  accept_one-few :
      (sock : ℕ) (s : Server S)
      → (waiting (accept_one k sock s).world ≤ waiting s.world)
        × ((accept_one k sock s).on_close ≡ s.on_close)
  unfolding accept_one add_event update_connect_time
  accept_one-few sock s =
      let w1 = k.set_sock sock s.world in
      let tried = k.epoll_ctl ctl_add sock epoll_in w1 in
      let set_ = laws.set_sock_keeps sock s.world in
      let added_ = laws.ctl_keeps ctl_add sock epoll_in w1 in
      elim (Bool-cases (leb 4096 sock)) [
        | inl high ↦ rw high (laws.close_keeps sock s.world, refl)
        | inr fits ↦ elim (Bool-cases (is_negative sock || ltb 4096 sock)) [
          | inl out ↦ absurd (ground (arith, fits, out))
          | inr within ↦ elim (Bool-cases tried.0) [
            | inl added ↦ rw (fits, added, within) (omega (arith, set_, added_), refl)
            | inr refused ↦
                rw (fits, refused, within)
                  (omega (arith, set_, added_, laws.close_keeps sock tried.1), refl)
          ]
        ]
      ]

  accept_loop-Calm :
      (n : ℕ) (s : Server S) → Calm s → waiting s.world < n → CalmEnd (some (accept_loop k n s))
  unfolding accept_loop
  accept_loop-Calm zero s q lt = absurd (omega arith)
  accept_loop-Calm (suc n) s q lt =
      let (sock, w) = k.accept s.listen_sock s.world in
      let s1 = record s { world = w } in
      elim (Bool-cases (ltb 0 sock)) [
        | inr none' ↦ rw none' (omega (arith, q.0, laws.accept_none s.listen_sock s.world), q.1)
        | inl got ↦
            let less = laws.accept_some s.listen_sock s.world (ltb→lt 0 sock got) in
            let (few, kept) = accept_one-few sock s1 in
            rw got (
              accept_loop-Calm n (accept_one k sock s1) (omega (arith, few, less, q.0), kept ∙ q.1)
                (omega (arith, few, less)))
      ]

  and_then-Calm :
      (r : Option (Option (Server S))) (f : Server S → Option (Option (Server S)))
      → CalmEnd r
      → ((s : Server S) → Calm s → CalmEnd (f s))
      → CalmEnd (◌and_then◌ k r f)
  and_then-Calm none f q keeps = tt
  and_then-Calm (some none) f q keeps = absurd q
  and_then-Calm (some (some s)) f q keeps = keeps s q

  when-Calm :
      (c : Bool) (f : Server S → Option (Option (Server S)))
      → ((s : Server S) → Calm s → CalmEnd (f s))
      → (s : Server S) → Calm s
      → CalmEnd (when k c f s)
  when-Calm false f keeps s q = q
  when-Calm true f keeps s q = keeps s q

  module _ (fuel : ℕ) (enough : b < fuel) where
    event-Calm : (e : ℕ × Events) (s : Server S) → Calm s → CalmEnd (on_event k fuel e s)
    unfolding on_event
    event-Calm (sock, events) s q = elim (Bool-cases (sock == s.listen_sock)) [
      | inl listens ↦ rw listens (accept_loop-Calm fuel s q (omega (arith, q.0)))
      | inr other ↦ rw other (
          and_then-Calm _ _
            (and_then-Calm _ _
              (when-Calm events.epollin (on_recv k fuel sock) (recv-Calm fuel enough sock) s q)
              (when-Calm events.epollout _ (send-Calm sock)))
            (when-Calm (events.epollerr || events.epollhup) _
              (λ s' q'. close-Calm sock (forget sock s') q')))
    ]

    events-Calm : (es : List (ℕ × Events)) (s : Server S) → Calm s → CalmEnd (on_events k fuel es s)
    unfolding on_events
    events-Calm [] s q = q
    events-Calm (e ∷ es) s q = and_then-Calm _ _ (event-Calm e s q) (events-Calm es)

-- Where nothing new comes in while the call runs: with the callback set and more fuel than there are
-- bytes and connections that wait when `epoll_wait` comes back, no loop of `DespatchEvent` runs out of
-- fuel, on any events in any order, from any state of the server and on any bytes: it comes back, or it
-- has a fault.
pub despatch_event-ends :
    {S : Type 0} (k : Kernel S) (on_close : ℕ → List Entry → List Entry) (waiting : S → ℕ)
    → WaitingLaws k waiting
    → (fuel : ℕ) (s : Server S) → s.on_close ≡ some on_close
    → waiting (k.epoll_wait s.world).1 < fuel
    → despatch_event k fuel s ≢ some none
unfolding despatch_event
despatch_event-ends k on_close waiting laws fuel s on few e =
    let (events, w) = k.epoll_wait s.world in
    subst (QuietEnd k on_close waiting laws (waiting w)) e (
      events-Calm k on_close waiting laws (waiting w) fuel few events (record s { world = w })
        (omega arith, on))

-- ===== src/Server/Sound/Polling.antt =====
-- net_server.cpp, `OnRecv` and `DespatchEvent`: whatever happens on the sockets, the server stays sound.
use pserver.Prelude.{
  ℕ, zero, suc, inl, inr, Bool, true, false, ◌||◌, List, [], ◌∷◌, Option, none, some, leb, ltb,
  ◌==◌, Bool-cases, Option-cases, ◌>>=◌,
}
use pserver.HashTable
use pserver.Kernel.{Kernel, ctl_add, TakesAtMost, Events, eagain}
use pserver.Message.{Message}
use pserver.Message.Progress.{InProgress, new-InProgress}
use pserver.Message.Transfer.{count, failed}
use pserver.Server.{Server, epoll_in, is_negative, close_connect, on_send}
use pserver.Server.Loop.{Loop, ended, returned, out_of_fuel, forget, recv_loop, after_loop, on_recv}
use pserver.Server.Poll.{
  add_event, accept_one, accept_loop, when, done, ◌and_then◌, on_event, on_events, despatch_event,
}
use pserver.Server.Sound.{IsSound}
use pserver.Server.Sound.Closing.{
  world-IsSound, forget-IsSound, update_connect_time-IsSound, close_connect-IsSound,
}
use pserver.Server.Sound.Packets.{Present, insert-Present, insert-IsSound}
use pserver.Server.Sound.Receiving.{SoundLoop, recv_loop-IsSound}
use pserver.Server.Sound.Sending.{on_send-IsSound}

-- A handler leaves the server sound, if it ends.
abbrev pub Kept : {S : Type 0} → Option (Option (Server S)) → Type 0
Kept none = Unit {0}
Kept (some none) = Unit {0}
Kept (some (some s)) = IsSound s

module _ {S : Type 0} (k : Kernel S) where
  closing-Kept :
      (sock : ℕ) (s : Server S) → IsSound s → Kept (close_connect k sock s >>= λ s'. some (some s'))
  closing-Kept sock s v = elim (Option-cases (close_connect k sock s)) [
    | inl e ↦ rw e tt
    | inr (s', e) ↦ rw e (close_connect-IsSound s v k sock s' e)
  ]

  close-Kept : (sock : ℕ) (s : Server S) → IsSound s → Kept (done k (close_connect k sock s))
  close-Kept sock s v = elim (Option-cases (close_connect k sock s)) [
    | inl e ↦ rw e tt
    | inr (s', e) ↦ rw e (close_connect-IsSound s v k sock s' e)
  ]

  module _ (sock : ℕ) where
    after_loop-Kept : (l : Loop S) → SoundLoop k sock l → Kept (after_loop k sock l)
    unfolding after_loop
    after_loop-Kept out_of_fuel v = tt
    after_loop-Kept (returned s) v = v
    after_loop-Kept (ended (count zero) s) v =
        closing-Kept sock (forget sock s) (forget-IsSound s v sock)
    after_loop-Kept (ended (count (suc n)) s) v = v
    after_loop-Kept (ended failed s) v = elim (Bool-cases (k.errno s.world == eagain)) [
      | inl again ↦ rw again v
      | inr broken ↦ rw broken (closing-Kept sock (forget sock s) (forget-IsSound s v sock))
    ]

    loop-Kept :
        (fuel : ℕ) (msg : Message) (s : Server S)
        → IsSound s
        → Present sock s
        → InProgress msg
        → Kept (recv_loop k fuel sock msg s >>= after_loop k sock)
    loop-Kept fuel msg s v here p = elim (Option-cases (recv_loop k fuel sock msg s)) [
      | inl e ↦ rw e tt
      | inr (l, e) ↦ rw e (after_loop-Kept l (recv_loop-IsSound k sock fuel msg s l v here p e))
    ]

    on_recv-Kept : (fuel : ℕ) (s : Server S) → IsSound s → Kept (on_recv k fuel sock s)
    unfolding on_recv
    on_recv-Kept fuel s v = elim (Bool-cases (is_negative sock || leb 4096 sock)) [
      | inl out ↦ rw out v
      | inr fine ↦ elim (Option-cases (HashTable.find sock s.recv_list)) [
        | inr (msg, e) ↦ rw (fine, e) (loop-Kept fuel msg s v (msg, e) (v.partial sock msg e))
        | inl e ↦
            let (fresh, made, q) = new-InProgress in
            rw (fine, e, made)
              (loop-Kept fuel fresh
                (record s { recv_list = HashTable.insert sock fresh s.recv_list })
                (insert-IsSound sock s fresh v q) (insert-Present sock s.recv_list fresh v.receives)
                q)
      ]
    ]

  pub accept_one-IsSound : (sock : ℕ) (s : Server S) → IsSound s → IsSound (accept_one k sock s)
  unfolding accept_one add_event
  accept_one-IsSound sock s v =
      let tried = (k.epoll_ctl ctl_add sock epoll_in (k.set_sock sock s.world)) in
      elim (Bool-cases (leb 4096 sock)) [
        | inl high ↦ rw high (world-IsSound s v (k.close sock s.world))
        | inr fits ↦ elim (Bool-cases tried.0) [
          | inl added ↦
              rw (fits, added)
                (update_connect_time-IsSound (record s { world = tried.1 })
                  (world-IsSound s v tried.1) sock)
          | inr refused ↦
              let w = k.close sock tried.1 in
              rw (fits, refused)
                (update_connect_time-IsSound (record s { world = w }) (world-IsSound s v w) sock)
        ]
      ]

  accept_loop-Kept : (fuel : ℕ) (s : Server S) → IsSound s → Kept (some (accept_loop k fuel s))
  unfolding accept_loop
  accept_loop-Kept zero s v = tt
  accept_loop-Kept (suc fuel) s v =
      let (sock, w) = k.accept s.listen_sock s.world in
      let v' = world-IsSound s v w in
      elim (Bool-cases (ltb 0 sock)) [
        | inl got ↦ rw got (
            accept_loop-Kept fuel (accept_one k sock (record s { world = w }))
              (accept_one-IsSound sock (record s { world = w }) v'))
        | inr none' ↦ rw none' v'
      ]

  and_then-Kept :
      (r : Option (Option (Server S))) (f : Server S → Option (Option (Server S)))
      → Kept r
      → ((s : Server S) → IsSound s → Kept (f s))
      → Kept (◌and_then◌ k r f)
  and_then-Kept none f v keeps = tt
  and_then-Kept (some none) f v keeps = tt
  and_then-Kept (some (some s)) f v keeps = keeps s v

  when-Kept :
      (b : Bool) (f : Server S → Option (Option (Server S)))
      → ((s : Server S) → IsSound s → Kept (f s))
      → (s : Server S) → IsSound s
      → Kept (when k b f s)
  when-Kept false f keeps s v = v
  when-Kept true f keeps s v = keeps s v

  module _ (takes : TakesAtMost k) where
    send-Kept : (sock : ℕ) (s : Server S) → IsSound s → Kept (done k (on_send k sock s))
    send-Kept sock s v = let (s', e, v') = on_send-IsSound k takes sock s v in rw e v'

    pub on_event-Kept :
        (fuel : ℕ) (e : ℕ × Events) (s : Server S) → IsSound s → Kept (on_event k fuel e s)
    unfolding on_event
    on_event-Kept fuel (sock, events) s v = elim (Bool-cases (sock == s.listen_sock)) [
      | inl listens ↦ rw listens (accept_loop-Kept fuel s v)
      | inr other ↦ rw other (
          and_then-Kept _ _
            (and_then-Kept _ _
              (when-Kept events.epollin (on_recv k fuel sock) (on_recv-Kept sock fuel) s v)
              (when-Kept events.epollout _ (send-Kept sock)))
            (when-Kept (events.epollerr || events.epollhup) _
              (λ s' v'. close-Kept sock (forget sock s') (forget-IsSound s' v' sock))))
    ]

    on_events-Kept :
        (fuel : ℕ) (es : List (ℕ × Events)) (s : Server S)
        → IsSound s
        → Kept (on_events k fuel es s)
    unfolding on_events
    on_events-Kept fuel [] s v = v
    on_events-Kept fuel (e ∷ es) s v =
        and_then-Kept _ _ (on_event-Kept fuel e s v) (on_events-Kept fuel es)

    pub despatch_event-Kept : (fuel : ℕ) (s : Server S) → IsSound s → Kept (despatch_event k fuel s)
    unfolding despatch_event
    despatch_event-Kept fuel s v =
        on_events-Kept fuel (k.epoll_wait s.world).0 (record s { world = (k.epoll_wait s.world).1 })
          (world-IsSound s v (k.epoll_wait s.world).1)

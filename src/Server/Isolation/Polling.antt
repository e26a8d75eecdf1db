-- ===== src/Server/Isolation/Polling.antt =====
-- net_server.cpp, `DespatchEvent`: an event of one socket and the packets of the others.
use pserver.Prelude.{
  ℕ, zero, suc, ◌≡◌, refl, ap, subst, ◌∙◌, ◌≢◌, inl, inr, Bool, true, false, ◌||◌, Option, none,
  some, arith, leb, ltb, ◌==◌, Bool-cases, ==_ne, Option-cases, ◌>>=◌,
}
use pserver.HashTable
use pserver.HashTable.Laws.{find-erase, find-update_value}
use pserver.Kernel.{Kernel, Events, ctl_add, TakesAtMost, eagain}
use pserver.Message.{Message}
use pserver.Message.Progress.{InProgress, new-InProgress}
use pserver.Message.Transfer
use pserver.Message.Transfer.{Ret, count, failed}
use pserver.Server.{Server, is_negative, epoll_in, update_connect_time, close_connect, on_send}
use pserver.Server.Loop.{Loop, ended, returned, out_of_fuel, forget, recv_loop, after_loop, on_recv}
use pserver.Server.Poll.{add_event, accept_one, accept_loop, when, ◌and_then◌, done, on_event}
use pserver.PackageList.Laws.{of_sock}
use pserver.Server.Isolation.{
  Same, Same-refl, Same-trans, Same-forget, Same-insert, Same-close_connect, SameLoop,
  recv_loop-Same,
}
use pserver.Server.Sound.{IsSound}
use pserver.Server.Sound.Closing.{forget-IsSound, close_connect-IsSound, world-IsSound}
use pserver.Server.Sound.Packets.{Present, insert-IsSound, insert-Present}
use pserver.Server.Sound.Polling.{accept_one-IsSound}
use pserver.Server.Sound.Receiving.{SoundLoop, recv_loop-IsSound}
use pserver.Server.Sound.Sending.{on_send-IsSound}

module _ {S : Type 0} (k : Kernel S) (j sock : ℕ) (ne : j ≢ sock) where
  -- Where a handler ends, the server is sound, and all that it keeps for `j` is as it was in `s`.
  abbrev pub Apart : Server S → Option (Option (Server S)) → Type 0
  Apart s none = Unit {0}
  Apart s (some none) = Unit {0}
  Apart s (some (some s')) = IsSound s' × Same j s s'

  Apart-from :
      (s s1 : Server S) (r : Option (Option (Server S))) → Same j s s1 → Apart s1 r → Apart s r
  Apart-from s s1 none a b = tt
  Apart-from s s1 (some none) a b = tt
  Apart-from s s1 (some (some s')) a (v, b) = (v, Same-trans j sock ne s s1 s' a b)

  closing-Apart :
      (s : Server S) → IsSound s → Apart s (close_connect k sock s >>= λ s'. some (some s'))
  closing-Apart s v = elim (Option-cases (close_connect k sock s)) [
    | inl e ↦ rw e tt
    | inr (s', e) ↦
        rw e (close_connect-IsSound s v k sock s' e, Same-close_connect j sock ne k s s' v e)
  ]

  forgotten-Apart :
      (s : Server S)
      → IsSound s
      → Apart s (close_connect k sock (forget sock s) >>= λ s'. some (some s'))
  forgotten-Apart s v =
      Apart-from s (forget sock s) _ (Same-forget j sock ne s v)
        (closing-Apart (forget sock s) (forget-IsSound s v sock))

  after_loop-Apart :
      (s : Server S) (l : Loop S)
      → SoundLoop k sock l
      → SameLoop j sock ne k s l
      → Apart s (after_loop k sock l)
  unfolding after_loop
  after_loop-Apart s out_of_fuel v a = tt
  after_loop-Apart s (returned s') v a = (v, a)
  after_loop-Apart s (ended (count zero) s') v a = Apart-from s s' _ a (forgotten-Apart s' v)
  after_loop-Apart s (ended (count (suc n)) s') v a = (v, a)
  after_loop-Apart s (ended failed s') v a = elim (Bool-cases (k.errno s'.world == eagain)) [
    | inl again ↦ rw again (v, a)
    | inr broken ↦ rw broken (Apart-from s s' _ a (forgotten-Apart s' v))
  ]

  loop-Apart :
      (fuel : ℕ) (msg : Message) (s : Server S)
      → IsSound s
      → Present sock s
      → InProgress msg
      → Apart s (recv_loop k fuel sock msg s >>= after_loop k sock)
  loop-Apart fuel msg s v here p = elim (Option-cases (recv_loop k fuel sock msg s)) [
    | inl e ↦ rw e tt
    | inr (l, e) ↦ rw e (
        after_loop-Apart s l (recv_loop-IsSound k sock fuel msg s l v here p e)
          (recv_loop-Same j sock ne k fuel msg s l v here p e))
  ]

  on_recv-Apart : (fuel : ℕ) (s : Server S) → IsSound s → Apart s (on_recv k fuel sock s)
  unfolding on_recv
  on_recv-Apart fuel s v = elim (Bool-cases (is_negative sock || leb 4096 sock)) [
    | inl out ↦ rw out (v, Same-refl j sock ne s)
    | inr fine ↦ elim (Option-cases (HashTable.find sock s.recv_list)) [
      | inr (msg, e) ↦ rw (fine, e) (loop-Apart fuel msg s v (msg, e) (v.partial sock msg e))
      | inl e ↦
          let (fresh, made, q) = new-InProgress in
          let s1 : Server S = record s { recv_list = HashTable.insert sock fresh s.recv_list } in
          rw (fine, e, made)
            (Apart-from s s1 _ (Same-insert j sock ne s fresh v) (
              loop-Apart fuel fresh s1 (insert-IsSound sock s fresh v q)
                (insert-Present sock s.recv_list fresh v.receives) q))
    ]
  ]

  pub on_send-Same : (s s' : Server S) → IsSound s → on_send k sock s ≡ some s' → Same j s s'
  unfolding on_send
  on_send-Same s s' v e = elim (Option-cases (HashTable.find sock s.send_list)) [
    | inl f ↦ subst (Same j s) {x = s} {y = s'} (ground (arith, e, f)) (Same-refl j sock ne s)
    | inr (msg, f) ↦ elim (Option-cases (Transfer.send (k.send sock) msg s.world)) [
      | inl g ↦ absurd (ground (arith, e, f, g))
      | inr ((m, ret, w), g) ↦ elim (Bool-cases (Transfer.send_done m).1) [
        | inl done ↦
            let sends : s'.send_list ≡ (HashTable.erase sock s.send_list).0 =
              ground (arith, e, f, g, done) in
            (
              ap (HashTable.find j) (ground (arith, e, f, g, done)),
              ap (HashTable.find j) sends
                  ∙ (find-erase sock s.send_list v.sends j ∙ rw (==_ne sock j ne)),
              ap (of_sock j) (ground (arith, e, f, g, done)),
            )
        | inr more ↦
            let m' = (Transfer.send_done m).0 in
            let sends : s'.send_list ≡ HashTable.update_value sock m' s.send_list =
              ground (arith, e, f, g, more) in
            (
              ap (HashTable.find j) (ground (arith, e, f, g, more)),
              ap (HashTable.find j) sends
                  ∙ (find-update_value sock s.send_list v.sends j m' msg f ∙ rw (==_ne sock j ne)),
              ap (of_sock j) (ground (arith, e, f, g, more)),
            )
      ]
    ]
  ]

  update_connect_time-Same : (new : ℕ) (s : Server S) → Same j s (update_connect_time new s)
  unfolding update_connect_time
  update_connect_time-Same new s = elim (Bool-cases (is_negative new || ltb 4096 new)) [
    | inl out ↦ rw out (refl, refl, refl)
    | inr within ↦ rw within (refl, refl, refl)
  ]

  pub accept_one-Same : (new : ℕ) (s : Server S) → Same j s (accept_one k new s)
  unfolding accept_one add_event
  accept_one-Same new s =
      let tried = k.epoll_ctl ctl_add new epoll_in (k.set_sock new s.world) in
      elim (Bool-cases (leb 4096 new)) [
        | inl high ↦ rw high (refl, refl, refl)
        | inr fits ↦ elim (Bool-cases tried.0) [
          | inl added ↦
              rw (fits, added) (update_connect_time-Same new (record s { world = tried.1 }))
          | inr refused ↦
              rw (fits, refused)
                (update_connect_time-Same new (record s { world = k.close new tried.1 }))
        ]
      ]

  accept_loop-Apart : (fuel : ℕ) (s : Server S) → IsSound s → Apart s (some (accept_loop k fuel s))
  unfolding accept_loop
  accept_loop-Apart zero s v = tt
  accept_loop-Apart (suc fuel) s v =
      let (new, w) = k.accept s.listen_sock s.world in
      let s1 : Server S = record s { world = w } in
      let v1 = world-IsSound s v w in
      elim (Bool-cases (ltb 0 new)) [
        | inl got ↦ rw got (
            Apart-from s (accept_one k new s1) (some (accept_loop k fuel (accept_one k new s1)))
              (accept_one-Same new s1)
              (accept_loop-Apart fuel (accept_one k new s1) (accept_one-IsSound k new s1 v1)))
        | inr none' ↦ rw none' (v1, Same-refl j sock ne s)
      ]

  and_then-Apart :
      (s : Server S) (r : Option (Option (Server S))) (f : Server S → Option (Option (Server S)))
      → Apart s r
      → ((s1 : Server S) → IsSound s1 → Apart s1 (f s1))
      → Apart s (◌and_then◌ k r f)
  and_then-Apart s none f a next = tt
  and_then-Apart s (some none) f a next = tt
  and_then-Apart s (some (some s1)) f (v, a) next = Apart-from s s1 (f s1) a (next s1 v)

  when-Apart :
      (b : Bool) (f : Server S → Option (Option (Server S)))
      → ((s : Server S) → IsSound s → Apart s (f s))
      → (s : Server S) → IsSound s
      → Apart s (when k b f s)
  when-Apart false f next s v = (v, Same-refl j sock ne s)
  when-Apart true f next s v = next s v

  module _ (takes : TakesAtMost k) where
    send-Apart : (s : Server S) → IsSound s → Apart s (done k (on_send k sock s))
    send-Apart s v =
        let (s', e, v') = on_send-IsSound k takes sock s v in rw e (v', on_send-Same s s' v e)

    close-Apart : (s : Server S) → IsSound s → Apart s (done k (close_connect k sock s))
    close-Apart s v = elim (Option-cases (close_connect k sock s)) [
      | inl e ↦ rw e tt
      | inr (s', e) ↦
          rw e (close_connect-IsSound s v k sock s' e, Same-close_connect j sock ne k s s' v e)
    ]

    pub on_event-Apart :
        (fuel : ℕ) (events : Events) (s : Server S)
        → IsSound s
        → Apart s (on_event k fuel (sock, events) s)
    unfolding on_event
    on_event-Apart fuel events s v = elim (Bool-cases (sock == s.listen_sock)) [
      | inl listens ↦ rw listens (accept_loop-Apart fuel s v)
      | inr other ↦ rw other (
          and_then-Apart s _ _
            (and_then-Apart s _ _
              (when-Apart events.epollin (on_recv k fuel sock) (on_recv-Apart fuel) s v)
              (when-Apart events.epollout _ send-Apart))
            (when-Apart (events.epollerr || events.epollhup) _ (λ s' v'.
              Apart-from s' (forget sock s') _ (Same-forget j sock ne s' v')
                (close-Apart (forget sock s') (forget-IsSound s' v' sock)))))
    ]
